-- ===== src/Scenarios/Polls.antt =====
-- Runs of a proposal and of a poll.
use voteit.Prelude.{ℕ, ◌≡◌, ◌≢◌, refl, true, false, none, some, [], ◌∷◌, every, not, map, is_some}
use voteit.Core.Chart.{taken, python_statemachine}
use voteit.States.{
  MeetingState, AgendaState, PollState, ProposalState, published, retracted, voting, approved,
  finished, withheld, canceled, poll_finished,
}
use voteit.Rules.Content.{Proposal}
use voteit.Proposal
use voteit.Proposal.{retract, approve, by, forced}
use voteit.Poll.Ballots.{PollResult}
use voteit.Poll.Machine.{
  Poll, Method, make_ongoing, close, publish_result, cancel, validate, has_change_state_permission,
}
use voteit.Poll.Machine.Actions.{
  send, step, send-step, in_state, lock_proposals, publish_proposals, set_proposals,
}
use voteit.Poll.Machine.Closing.{outcome, counted, resolved, closing, close_resolves}
use voteit.Poll.Machine.Reached.{draft, Step, Reach, result_iff_finished, close_succeeds}
use voteit.Poll.Machine.Handled.{judged, start_poll, publish_poll}
use voteit.Scenarios.{anna, bo, meeting_in, item_in, motion}
use voteit.Scenarios.Votes.{choice_eq, register, poll_votes, digest, approve_all}

abbrev pub ours : ProposalState → Proposal
ours s = motion s (item_in AgendaState.ongoing)

step-retract_run : Proposal.step retract (by bo) (ours published) ≡ taken (ours retracted)
unfolding Proposal.step
step-retract_run = refl

-- A method that approves proposal 7, and a policy that applies the register of three voters.
abbrev pub majority : Method ℕ
majority = record {
  settings_valid = true;
  start_check = λ ps. true;
  calculate = approve_all;
  sha512 = digest;
  apply = λ er. some (some register);
}

abbrev pub first : Poll ℕ
first =
    draft true (ours published ∷ []) (some (meeting_in MeetingState.ongoing))
      (some (item_in AgendaState.ongoing))

abbrev pub open_poll : Poll ℕ
open_poll = record first {
  state = PollState.ongoing;
  started = some 5;
  count = record (first.count) { electoral_register = some register };
  proposals = ours voting ∷ [];
}

abbrev filled : Poll ℕ
filled = record open_poll { count = record (open_poll.count) { votes = poll_votes } }

step-start_run : step python_statemachine majority make_ongoing (by anna) 5 first ≡ taken open_poll
unfolding step lock_proposals Proposal.send Proposal.transitions Proposal.validate
step-start_run = refl

start_run :
    send python_statemachine majority python_statemachine make_ongoing (by anna) 5 first
    ≡ taken open_poll
start_run =
    rw (send-step python_statemachine majority python_statemachine make_ongoing (by anna) 5 first)
      step-start_run

start_poll_example : every (λ q. not (in_state published q)) open_poll.proposals ≡ true
start_poll_example =
    (start_poll python_statemachine majority python_statemachine (by anna) 5 first open_poll
      start_run).7

filled_run : Reach python_statemachine majority python_statemachine first filled
filled_run =
    Reach.next (Reach.next Reach.here (Step.event make_ongoing (by anna) 5 start_run))
      (Step.elsewhere refl refl refl)

result_iff_finished_example :
    (is_some filled.count.ballot_data ≡ poll_finished filled.state)
    × (is_some filled.count.result_data ≡ poll_finished filled.state)
    × (filled.state ≢ PollState.closed)
result_iff_finished_example =
    result_iff_finished python_statemachine majority python_statemachine true (ours published ∷ [])
      (some (meeting_in MeetingState.ongoing)) (some (item_in AgendaState.ongoing)) filled
      filled_run

may_close : validate majority (by anna) filled has_change_state_permission ≡ none
unfolding validate
may_close = refl

close_resolves_example :
    send python_statemachine majority python_statemachine close (by anna) 9 filled
    ≡ taken (
        resolved python_statemachine majority
          (outcome true (counted python_statemachine majority filled.count))
          (closing python_statemachine majority 9 filled))
close_resolves_example =
    close_resolves python_statemachine majority python_statemachine (by anna) 9 filled refl
      may_close

close_succeeds_example :
    (p' : Poll ℕ) × (send python_statemachine majority python_statemachine close (by anna) 9 filled
      ≡ taken p')
    × (p'.state ≡ withheld)
    × (is_some p'.count.result_data ≡ true)
close_succeeds_example =
    close_succeeds python_statemachine majority python_statemachine true (ours published ∷ [])
      (some (meeting_in MeetingState.ongoing)) (some (item_in AgendaState.ongoing)) filled register
      (by anna) 9 filled_run refl may_close refl refl refl (λ counter. refl)

abbrev stopped : Poll ℕ
stopped = record filled { state = canceled; closed = some 6; proposals = ours published ∷ [] }

step-cancel_run : step python_statemachine majority cancel (by anna) 6 filled ≡ taken stopped
unfolding step publish_proposals Proposal.send Proposal.transitions Proposal.validate
step-cancel_run = refl

abbrev result : PollResult
result = record { approved = 7 ∷ []; denied = []; vote_count = some 7 }

abbrev secret : Poll ℕ
secret = record filled {
  state = withheld;
  count = record (filled.count) { result_data = some result };
}

abbrev public_poll : Poll ℕ
public_poll = record secret {
  state = finished;
  withheld_result = false;
  proposals = ours approved ∷ [];
}

step-publish_run :
    step python_statemachine majority publish_result (by anna) 8 secret ≡ taken public_poll
unfolding step set_proposals Proposal.send Proposal.transitions Proposal.validate
step-publish_run = refl

publish_poll_example : public_poll.proposals ≡ map (judged result) secret.proposals
publish_poll_example =
    (publish_poll python_statemachine majority python_statemachine (by anna) 8 secret public_poll
      result refl
      (rw
        (send-step python_statemachine majority python_statemachine publish_result (by anna) 8
          secret)
        step-publish_run)).3
