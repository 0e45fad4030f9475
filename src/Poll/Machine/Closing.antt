-- ===== src/Poll/Machine/Closing.antt =====
-- What closing a poll comes to (`close`, with the eventless transitions out of `closed`).
use voteit.Prelude.{
  ℕ, ◌≡◌, refl, Bool, true, false, ◌&&◌, Option, none, some, List, if◌then◌else◌, is_some, Eq,
  arith,
}
use voteit.Core.Chart.{Transition, taken, Engine}
use voteit.States.{ProposalState, PollState, finished, withheld, canceled, failed, no_result}
use voteit.States.PollState.{ongoing, closed}
use voteit.Rules.Content.{Proposal}
use voteit.Proposal
use voteit.Proposal.{Caller}
use voteit.Poll.Ballots.{PollResult, Count}
use voteit.Poll.Machine.{
  Poll, Event, close, Guard, has_change_state_permission, Error, Method, validate, populated,
  valid_votes,
}
use voteit.Poll.Machine.Actions.{
  set_proposals, attempt, cleaned, perform, decided, send, step, send-step,
}

abbrev pub closable : PollState → Bool
closable ongoing = true
closable failed = true
closable canceled = true
closable _ = false

module _ {B : Type 0} where
  -- The state that a poll closes into, by its `withheld_result` and what the count left.
  abbrev pub outcome : Bool → Count B → PollState
  outcome withhold c =
      if valid_votes c && populated c.electoral_register
      then if is_some c.result_data then if withhold then withheld else finished else failed
      else no_result

  abbrev pub cleared : Count B → Count B
  cleared c = record c { ballot_data = none; ballot_checksum = none; abstains = 0 }

module _
    (proposals : Engine (Transition ProposalState Proposal.Event Proposal.Guard) Proposal.Error)
    {B : Type 0} ⦃e : Eq (Option B)⦄ (method : Method B) where
  -- The votes of users who are no longer in the register are gone, and the result is calculated if
  -- a vote is left that is no abstention.
  abbrev pub counted : Count B → Count B
  counted c = attempt proposals method (cleaned proposals method c)

  abbrev set_from : Option PollResult → List Proposal → List Proposal
  set_from none ps = ps
  set_from (some r) ps = set_proposals proposals r ps

  abbrev pub resolved : PollState → Poll B → Poll B
  resolved finished p = record p {
    state = finished;
    proposals = set_from p.count.result_data p.proposals;
  }
  resolved failed p = record p { state = failed; count = cleared p.count }
  resolved s p = record p { state = s }

  abbrev pub closing : ℕ → Poll B → Poll B
  closing now p = record p { state = closed; closed = some now; count = counted p.count }

  decided-close :
      (caller : Caller) (now : ℕ) (p : Poll B)
      → closable p.state ≡ true
      → validate method caller p has_change_state_permission ≡ none
      → perform proposals method now p (decided proposals method p.state (some close) caller p)
        ≡ taken (closing now p)
  unfolding perform decided validate
  decided-close caller now p open_state permitted = ground arith

  settle-closed :
      (caller : Caller) (now : ℕ) (p : Poll B)
      → perform proposals method now p (decided proposals method closed none caller p)
        ≡ taken (resolved (outcome p.withheld_result p.count) p)
  unfolding perform decided
  settle-closed caller now p = ground arith

  pub step-close :
      (caller : Caller) (now : ℕ) (p : Poll B)
      → closable p.state ≡ true
      → validate method caller p has_change_state_permission ≡ none
      → step proposals method close caller now p
        ≡ taken (resolved (outcome p.withheld_result (counted p.count)) (closing now p))
  unfolding step
  step-close caller now p open_state permitted =
      rw (decided-close caller now p open_state permitted)
        (rw (settle-closed caller now (closing now p)) refl)

  module _ (engine : Engine (Transition PollState Event Guard) Error) where
    -- Closing an ongoing, failed or canceled poll with permission always succeeds, and leads on from
    -- `closed` at once: to `no_result` if the register has no voters or no vote is left but
    -- abstentions, or else to `failed` if the method gave no result, or else to `withheld` or
    -- `finished` as the poll asks. `finished` sets the proposals from the result, and `failed` clears
    -- the ballot package.
    pub close_resolves :
        (caller : Caller) (now : ℕ) (p : Poll B)
        → closable p.state ≡ true
        → validate method caller p has_change_state_permission ≡ none
        → send proposals method engine close caller now p
          ≡ taken (resolved (outcome p.withheld_result (counted p.count)) (closing now p))
    close_resolves caller now p open_state permitted =
        rw (send-step proposals method engine close caller now p)
          (step-close caller now p open_state permitted)
