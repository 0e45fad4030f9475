-- ===== src/Scenarios/Starting.antt =====
-- A run of a poll that starts under a register policy.
use voteit.Prelude.{◌≡◌, refl, true, some, ℕ}
use voteit.Core.Chart.{taken, python_statemachine}
use voteit.Proposal
use voteit.Proposal.{by}
use voteit.Poll.Register.{set_voters_from_dict}
use voteit.Poll.Machine.{Poll, make_ongoing}
use voteit.Poll.Machine.Actions.{step, send-step, lock_proposals}
use voteit.Poll.Policy.{apply}
use voteit.Poll.Policy.Made.{represents}
use voteit.Poll.Starting.{policy_register, under, start_poll_voters}
use voteit.Scenarios.{anna}
use voteit.Scenarios.Votes.{choice_eq}
use voteit.Scenarios.Polls.{majority, first, open_poll}
use voteit.Scenarios.Registers.{meeting, two_voters, before_poll, new_register}

abbrev started : Poll ℕ
started = record open_poll {
  count = record (open_poll.count) { electoral_register = some new_register };
}

step-run :
    step python_statemachine (under before_poll meeting majority) make_ongoing (by anna) 5 first
    ≡ taken started
unfolding step lock_proposals Proposal.send Proposal.transitions Proposal.validate policy_register
    apply set_voters_from_dict
step-run = refl

start_poll_voters_example : represents two_voters started.count.electoral_register ≡ true
start_poll_voters_example =
    start_poll_voters python_statemachine majority python_statemachine before_poll meeting
      two_voters (by anna) 5 first started refl refl refl refl refl refl
      (rw
        (send-step python_statemachine (under before_poll meeting majority) python_statemachine
          make_ongoing (by anna) 5 first)
        step-run)
