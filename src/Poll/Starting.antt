-- ===== src/Poll/Starting.antt =====
-- A poll that starts under a register policy: `on_enter_ongoing` of voteit/poll/statemachines.py with
-- `apply` of voteit/poll/abcs.py.
use voteit.Prelude.{
  ℕ, ◌≡◌, true, false, Option, none, some, List, Eq, is_some, distinct, keys, arith,
}
use voteit.Core.Chart.{Transition, taken, Engine}
use voteit.States.{ProposalState, PollState}
use voteit.Proposal
use voteit.Proposal.{Caller}
use voteit.Poll.Register.{Register}
use voteit.Poll.Machine.{Poll, Event, make_ongoing, Guard, Error, Method}
use voteit.Poll.Machine.Actions.{send}
use voteit.Poll.Machine.Handled.{start_poll_register}
use voteit.Poll.Policy.{Meeting, Policy, Outcome, made, failed, apply, is_nil}
use voteit.Poll.Policy.Made.{represents, apply_lem}

abbrev register_of : Outcome (Meeting × Option Register) → Option (Option Register)
register_of (made (m, r)) = some r
register_of (failed e) = none

-- What `apply` of the policy leaves on a poll of the meeting.
unfoldable pub policy_register : Policy → Meeting → Option Register → Option (Option Register)
policy_register p m er = register_of (apply p er m)

abbrev pub under : {B : Type 0} → Policy → Meeting → Method B → Method B
under p m method = record method { apply = policy_register p m }

Outcome-cases :
    (o : Outcome (Meeting × Option Register)) (r : Option Register)
    → register_of o ≡ some r
    → (m : Meeting) × (o ≡ made (m, r))
Outcome-cases (made (m, x)) r h = (m, ground arith)
Outcome-cases (failed e) r h = absurd (ground arith)

policy_register-represents :
    (p : Policy) (m : Meeting) (voters : List (ℕ × ℕ)) (old r : Option Register)
    → p.creates_before_poll ≡ true
    → p.get_voters ≡ some voters
    → distinct (keys voters) ≡ true
    → is_nil voters ≡ false
    → m.is_ongoing ≡ true
    → policy_register p m old ≡ some r
    → represents voters r ≡ true
unfolding policy_register
policy_register-represents p m voters old r before named d some_voters ongoing h =
    let (m', done) = Outcome-cases (apply p old m) r h in
    (apply_lem p m m' voters old r before named d some_voters ongoing done).1

module _
    (proposals : Engine (Transition ProposalState Proposal.Event Proposal.Guard) Proposal.Error)
    {B : Type 0} ⦃e : Eq (Option B)⦄ (method : Method B)
    (engine : Engine (Transition PollState Event Guard) Error) where
  -- A poll of an ongoing meeting that starts under a policy that makes registers before polls, and that
  -- names somebody, starts with a register of exactly the voters that the policy names, with their
  -- weights.
  pub start_poll_voters :
      (policy : Policy) (m : Meeting) (voters : List (ℕ × ℕ)) (caller : Caller) (now : ℕ)
      (p p' : Poll B)
      → policy.creates_before_poll ≡ true
      → policy.get_voters ≡ some voters
      → distinct (keys voters) ≡ true
      → is_nil voters ≡ false
      → m.is_ongoing ≡ true
      → is_some p.meeting ≡ true
      → send proposals (under policy m method) engine make_ongoing caller now p ≡ taken p'
      → represents voters p'.count.electoral_register ≡ true
  start_poll_voters policy m voters caller now p p' before named d some_voters ongoing has_meeting
        h =
      let (_, applied, _) =
        start_poll_register proposals (under policy m method) engine caller now p p' has_meeting
          h in
      policy_register-represents policy m voters p.count.electoral_register
        p'.count.electoral_register before named d some_voters ongoing applied
