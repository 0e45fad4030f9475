-- ===== src/Poll/Machine/Reached.antt =====
-- What a poll can become, over any events of any users, and that closing gives a result.
use voteit.Prelude.{
  ℕ, ◌≡◌, ◌≢◌, Bool, true, false, not, Option, none, some, List, [], if◌then◌else◌, is_some, exists,
  Counter, Eq, arith, ◌⊎◌,
}
use voteit.Core.Chart.{Transition, taken, Engine}
use voteit.States.{ProposalState, PollState, poll_finished, finished, withheld}
use voteit.States.PollState.{private, closed}
use voteit.Rules.Content.{Proposal}
use voteit.Proposal
use voteit.Proposal.{Caller}
use voteit.Poll.Register.{Register}
use voteit.Poll.Ballots.{in_register}
use voteit.Poll.Machine.{
  Poll, Event, close, Guard, has_change_state_permission, Error, Method, validate, populated,
}
use voteit.Poll.Machine.Actions.{send, send-step}
use voteit.Poll.Machine.Closing.{closable, outcome, counted, resolved, closing, close_resolves}
use voteit.Poll.Machine.Sound.{
  IsSound, step-IsSound, counted-votes, counted-register, counted-succeeds,
}
use voteit.Rules

module _ {B : Type 0} where
  -- A poll as it is created.
  abbrev pub draft : Bool → List Proposal → Option Rules.Meeting → Option Rules.AgendaItem → Poll B
  draft withhold ps m ai = record {
    state = private;
    withheld_result = withhold;
    started = none;
    closed = none;
    count = record {
      electoral_register = none;
      votes = [];
      ballot_data = none;
      ballot_checksum = none;
      abstains = 0;
      result_data = none;
    };
    proposals = ps;
    meeting = m;
    agenda_item = ai;
    er_policy_registered = true;
    has_latest_er = false;
    require_manual = false;
  }

  draft-IsSound :
      (withhold : Bool) (ps : List Proposal) (m : Option Rules.Meeting)
      (ai : Option Rules.AgendaItem)
      → IsSound (draft withhold ps m ai)
  draft-IsSound withhold ps m ai = ground arith

module _
    (proposals : Engine (Transition ProposalState Proposal.Event Proposal.Guard) Proposal.Error)
    {B : Type 0} ⦃e : Eq (Option B)⦄ (method : Method B)
    (engine : Engine (Transition PollState Event Guard) Error) where
  -- What can happen to a poll: an event, and changes that no event makes, which leave its state, its
  -- ballot package and its result alone: votes, another register, other proposals, its meeting.
  pub data Step (p p' : Poll B) : Type 0 where
    event :
        (ev : Event) (caller : Caller) (now : ℕ)
        → send proposals method engine ev caller now p ≡ taken p'
        → Step p p'
    elsewhere :
        p'.state ≡ p.state
        → p'.count.ballot_data ≡ p.count.ballot_data
        → p'.count.result_data ≡ p.count.result_data
        → Step p p'

  pub data Reach (p : Poll B) : Poll B → Type 0 where
    here : Reach p p
    next : {a b : Poll B} → Reach p a → Step a b → Reach p b

  is_close : (ev : Event) → (ev ≡ close) ⊎ (ev ≢ close)
  is_close ev = ground arith

  Step-IsSound : {p p' : Poll B} → Step p p' → IsSound p → IsSound p'
  Step-IsSound {p} {p'} (event ev caller now h) s =
      step-IsSound proposals method ev caller now p p'
        (rw (send-step proposals method engine ev caller now p) at h) (is_close ev) s
  Step-IsSound (elsewhere a b c) s = ground arith

  Reach-IsSound : {p p' : Poll B} → Reach p p' → IsSound p → IsSound p'
  Reach-IsSound here s = s
  Reach-IsSound (next r st) s = Step-IsSound st (Reach-IsSound r s)

  -- Whatever happened to a poll since it was created: it has a ballot package, and a result, exactly
  -- in the states `finished` and `withheld`, and it is not left in `closed`.
  pub result_iff_finished :
      (withhold : Bool) (ps : List Proposal) (m : Option Rules.Meeting)
      (ai : Option Rules.AgendaItem) (p : Poll B)
      → Reach (draft withhold ps m ai) p
      → (is_some p.count.ballot_data ≡ poll_finished p.state)
        × (is_some p.count.result_data ≡ poll_finished p.state)
        × (p.state ≢ closed)
  result_iff_finished withhold ps m ai p r =
      let sound = Reach-IsSound r (draft-IsSound withhold ps m ai) in
      (sound.packed, sound.has_result, sound.settled)

  -- With a method that gives a result for every ballot package: an ongoing, canceled or failed poll
  -- that has a vote that is no abstention by a voter of its register closes into `withheld` or
  -- `finished`, as it asks for, with a result, whatever happened to it before.
  pub close_succeeds :
      (withhold : Bool) (ps : List Proposal) (m : Option Rules.Meeting)
      (ai : Option Rules.AgendaItem) (p : Poll B) (er : Register) (caller : Caller) (now : ℕ)
      → Reach (draft withhold ps m ai) p
      → closable p.state ≡ true
      → validate method caller p has_change_state_permission ≡ none
      → p.count.electoral_register ≡ some er
      → populated (some er) ≡ true
      → exists (λ v. not v.abstain) (in_register er p.count.votes) ≡ true
      → ((counter : Counter (Option B)) → is_some (method.calculate counter) ≡ true)
      → (p' : Poll B) × (send proposals method engine close caller now p ≡ taken p')
        × (p'.state ≡ (if p.withheld_result then withheld else finished))
        × (is_some p'.count.result_data ≡ true)
  close_succeeds withhold ps m ai p er caller now r open_state permitted has_er filled voted total =
      let sound = Reach-IsSound r (draft-IsSound withhold ps m ai) in
      let there =
        counted-succeeds proposals method p.count er (ground arith) (ground arith) has_er voted
          total in
      let votes = counted-votes proposals method p.count er has_er in
      let register = counted-register proposals method p.count in
      (
        resolved proposals method (outcome p.withheld_result (counted proposals method p.count))
            (closing proposals method now p),
        close_resolves proposals method engine caller now p open_state permitted,
        ground arith,
        ground arith,
      )
