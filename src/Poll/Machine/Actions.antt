-- ===== src/Poll/Machine/Actions.antt =====
-- The actions of a poll's chart and the sending of its events: voteit/poll/statemachines.py and
-- the methods `_lock_proposals`, `_publish_proposals` and `set_proposals_from_result` of `Poll`.
use voteit.Prelude.{
  ℕ, ◌≡◌, refl, Bool, true, false, ◌&&◌, ◌==◌, Option, none, some, List, ◌∷◌, if◌then◌else◌, member,
  is_some, every, map, Eq,
}
use voteit.Core.Chart.{
  Transition, Choice, taken, refused, not_enabled, Engine, first_enabled, first_error, fits,
  choose-first_enabled,
}
use voteit.States.{ProposalState, proposal_value, PollState, poll_value, failed, published, voting}
use voteit.States.PollState.{ongoing}
use voteit.Rules.Content.{Proposal}
use voteit.Proposal
use voteit.Proposal.{Caller, forced, by, lock_for_vote, approve, deny, publish}
use voteit.Poll.Register.{Register}
use voteit.Poll.Ballots.{PollResult, Count, cleanup_removed_from_er_votes, calculate_result}
use voteit.Poll.Machine.{
  Poll, Event, event_value, make_upcoming, make_ongoing, close, publish_result, withhold_result,
  cancel, unpublish, Guard, set_proposals_from_result, Error, policy_failed, no_result_to_read,
  transitions, Method, validate, holds, valid_votes,
}

abbrev pub in_state : ProposalState → Proposal → Bool
in_state s q = proposal_value q.state == proposal_value s

module _
    (proposals : Engine
      (Transition ProposalState Proposal.Event Proposal.Guard)
      Proposal.Error) where
  -- `proposal.<event>(force=True)`, with `TransitionNotAllowed` suppressed
  abbrev keep : Proposal → Choice Proposal Proposal.Error → Proposal
  keep q (taken q') = q'
  keep q _ = q

  abbrev pub applied : Proposal.Event → Proposal → Proposal
  applied event q = keep q (Proposal.send proposals event forced q)

  -- `_lock_proposals`, `_publish_proposals` and `set_proposals_from_result`
  unfoldable pub lock_proposals : List Proposal → List Proposal
  lock_proposals = map (λ q. if in_state published q then applied lock_for_vote q else q)

  unfoldable pub publish_proposals : List Proposal → List Proposal
  publish_proposals = map (λ q. if in_state voting q then applied publish q else q)

  unfoldable pub set_proposals : PollResult → List Proposal → List Proposal
  set_proposals r = map (λ q.
      if member q.pk r.approved
      then applied approve q
      else if member q.pk r.denied
      then applied deny q
      else applied publish q)

  module _ {B : Type 0} ⦃e : Eq (Option B)⦄ (method : Method B) where
    -- the calculation of `on_close`, whose exceptions are caught
    abbrev pub attempt : Count B → Count B
    attempt c = if valid_votes c then (calculate_result method.sha512 method.calculate c).0 else c

    abbrev pub cleaned : Count B → Count B
    cleaned c = if is_some c.electoral_register then cleanup_removed_from_er_votes c else c

    -- The actions `on_<event>`.
    unfoldable pub on_event : Event → ℕ → Poll B → Poll B
    unfolding cleanup_removed_from_er_votes calculate_result
    on_event make_upcoming now p = record p { proposals = lock_proposals p.proposals }
    on_event make_ongoing now p = record p {
      started = some now;
      proposals = lock_proposals p.proposals;
    }
    on_event close now p = record p { closed = some now; count = attempt (cleaned p.count) }
    on_event publish_result now p = record p { withheld_result = false }
    on_event withhold_result now p = record p { withheld_result = true }
    on_event cancel now p = record p {
      closed = some now;
      proposals = publish_proposals p.proposals;
    }
    on_event unpublish now p = p

    abbrev with_result : Option PollResult → Poll B → Choice (Poll B) Error
    with_result none p = refused no_result_to_read
    with_result (some r) p = taken (record p { proposals = set_proposals r p.proposals })

    -- The actions that a transition names.
    abbrev named : List Guard → Poll B → Choice (Poll B) Error
    named (set_proposals_from_result ∷ _) p = with_result p.count.result_data p
    named _ p = taken p

    abbrev applied_register : Option (Option Register) → Poll B → Choice (Poll B) Error
    applied_register none p = refused policy_failed
    applied_register (some er) p =
        taken (record p { count = record (p.count) { electoral_register = er } })

    -- The actions `on_enter_<state>`. With no meeting, or with no registered policy, the register
    -- stays as it is.
    unfoldable pub on_enter : PollState → Poll B → Choice (Poll B) Error
    on_enter ongoing p =
        if is_some p.meeting && p.er_policy_registered
        then applied_register (method.apply p.count.electoral_register) p
        else taken p
    on_enter failed p = taken (record p {
      count = record (p.count) { ballot_data = none; ballot_checksum = none; abstains = 0 };
    })
    on_enter _ p = taken p

    abbrev pub then_ :
        Choice (Poll B) Error → (Poll B → Choice (Poll B) Error) → Choice (Poll B) Error
    then_ (taken p) f = f p
    then_ (refused e) f = refused e
    then_ not_enabled f = not_enabled

    abbrev on_named_event : Option Event → ℕ → Poll B → Poll B
    on_named_event none now p = p
    on_named_event (some e) now p = on_event e now p

    -- The callbacks around a transition that was chosen, in the library's order.
    unfoldable pub perform :
        ℕ → Poll B → Choice (Transition PollState Event Guard) Error → Choice (Poll B) Error
    unfolding on_event on_enter
    perform now p (taken t) =
        then_ (named t.on p)
          (λ q. on_enter t.target (record (on_named_event t.event now q) { state = t.target }))
    perform now p (refused e) = refused e
    perform now p not_enabled = not_enabled

    -- An eventless transition is taken at once where one is enabled, and its outcome is the event's.
    abbrev pub settled : Poll B → Choice (Poll B) Error → Choice (Poll B) Error
    settled p not_enabled = taken p
    settled p outcome = outcome

    module _ (engine : Engine (Transition PollState Event Guard) Error) where
      abbrev decide :
          Option Event → Caller → Poll B → Choice (Transition PollState Event Guard) Error
      decide event caller p =
          engine.choose (fits poll_value event_value p.state event)
            (λ t. first_error (validate method caller p) t.validators)
            (λ t. every (holds p) t.conds) transitions

      -- `sm.send(event, user=user, force=force)`
      unfoldable pub send : Event → Caller → ℕ → Poll B → Choice (Poll B) Error
      unfolding perform
      send event caller now p =
          then_ (perform now p (decide (some event) caller p))
            (λ q. settled q (perform now q (decide none caller q)))

    -- The same, computed for every library that obeys its laws.
    unfoldable pub decided :
        PollState → Option Event → Caller → Poll B → Choice (Transition PollState Event Guard) Error
    unfolding transitions validate holds
    decided s event caller p =
        first_enabled (fits poll_value event_value s event)
          (λ t. first_error (validate method caller p) t.validators) (λ t. every (holds p) t.conds)
          transitions

    unfoldable pub step : Event → Caller → ℕ → Poll B → Choice (Poll B) Error
    unfolding perform decided
    step event caller now p =
        then_ (perform now p (decided p.state (some event) caller p))
          (λ q. settled q (perform now q (decided q.state none caller q)))

    module _ (engine : Engine (Transition PollState Event Guard) Error) where
      decide-decided :
          (event : Option Event) (caller : Caller) (p : Poll B)
          → decide engine event caller p ≡ decided p.state event caller p
      unfolding decided
      decide-decided event caller p =
          choose-first_enabled engine (fits poll_value event_value p.state event)
            (λ t. first_error (validate method caller p) t.validators)
            (λ t. every (holds p) t.conds) transitions

      settle-step :
          (caller : Caller) (now : ℕ) (outcome : Choice (Poll B) Error)
          → then_ outcome (λ q. settled q (perform now q (decide engine none caller q)))
            ≡ then_ outcome (λ q. settled q (perform now q (decided q.state none caller q)))
      settle-step caller now (taken q) = rw (decide-decided none caller q) refl
      settle-step caller now (refused x) = refl
      settle-step caller now not_enabled = refl

      pub send-step :
          (event : Event) (caller : Caller) (now : ℕ) (p : Poll B)
          → send engine event caller now p ≡ step event caller now p
      unfolding send step
      send-step event caller now p =
          rw (decide-decided (some event) caller p)
            (settle-step caller now (perform now p (decided p.state (some event) caller p)))
