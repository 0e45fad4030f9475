-- ===== src/Poll/Machine/Handled.antt =====
-- What the events of a poll need, and what they do to its proposals.
use voteit.Prelude.{
  ℕ, ◌≡◌, ◌≢◌, refl, true, false, ◌||◌, not, Option, none, some, List, [], ◌∷◌, if◌then◌else◌,
  member, is_some, every, map, Eq, arith, ◌∙◌,
}
use voteit.Core.Chart.{Transition, Choice, taken, Engine}
use voteit.States.{
  ProposalState, published, retracted, voting, approved, denied, unhandled, PollState,
  poll_permissive, finished, withheld, canceled,
}
use voteit.States.PollState.{private, ongoing, closed}
use voteit.Rules.Content.{Proposal}
use voteit.Proposal
use voteit.Proposal.{Caller, by, forced, lock_for_vote, approve, deny, publish}
use voteit.Proposal.Lifecycle.{send_forced}
use voteit.Poll.Ballots.{PollResult}
use voteit.Poll.Machine.{
  Poll, Event, make_ongoing, publish_result, cancel, both_ongoing, Guard,
  has_change_state_permission, Error, Method, validate,
}
use voteit.Poll.Machine.Actions.{
  in_state, set_proposals, lock_proposals, publish_proposals, perform, decided, send, send-step,
}
use voteit.Poll.Machine.Sound.{step-cases, settled_quiet}

-- The state that a result gives a proposal.
abbrev pub verdict : PollResult → Proposal → ProposalState
verdict r q =
    if member q.pk r.approved
    then elim q.state [ retracted ↦ retracted | unhandled ↦ unhandled | _ ↦ approved ]
    else if member q.pk r.denied
    then elim q.state [ retracted ↦ retracted | unhandled ↦ unhandled | _ ↦ denied ]
    else published

abbrev pub judged : PollResult → Proposal → Proposal
judged r q = record q { state = verdict r q }

module _
    (proposals : Engine
      (Transition ProposalState Proposal.Event Proposal.Guard)
      Proposal.Error) where
  lock-gone :
      (ps : List Proposal)
      → every (λ q. not (in_state published q)) (lock_proposals proposals ps) ≡ true
  unfolding lock_proposals
  lock-gone [] = refl
  lock-gone (q ∷ qs) = ground (arith, lock-gone qs, send_forced proposals lock_for_vote q)

  publish-gone :
      (ps : List Proposal)
      → every (λ q. not (in_state voting q)) (publish_proposals proposals ps) ≡ true
  unfolding publish_proposals
  publish-gone [] = refl
  publish-gone (q ∷ qs) = ground (arith, publish-gone qs, send_forced proposals publish q)

  set_proposals-verdict :
      (r : PollResult) (ps : List Proposal) → set_proposals proposals r ps ≡ map (judged r) ps
  unfolding set_proposals
  set_proposals-verdict r [] = refl
  set_proposals-verdict r (q ∷ qs) = ground (
    arith,
    set_proposals-verdict r qs,
    send_forced proposals approve q,
    send_forced proposals deny q,
    send_forced proposals publish q,
  )

module _
    (proposals : Engine (Transition ProposalState Proposal.Event Proposal.Guard) Proposal.Error)
    {B : Type 0} ⦃e : Eq (Option B)⦄ (method : Method B) where
  abbrev first_stage : PollState → Event → Caller → ℕ → Poll B → Choice (Poll B) Error
  first_stage s event caller now p =
      perform proposals method now p (decided proposals method s (some event) caller p)

  stage-start :
      (s : PollState) (caller : Caller) (now : ℕ) (p q : Poll B)
      → p.state ≡ s
      → first_stage s make_ongoing caller now p ≡ taken q
      → (poll_permissive p.state ≡ true)
        × (validate method caller p has_change_state_permission ≡ none)
        × (method.settings_valid ≡ true)
        × (method.start_check p.proposals ≡ true)
        × (both_ongoing p.meeting p.agenda_item ≡ none)
        × (q.state ≡ ongoing)
        × (q.started ≡ some now)
        × (q.proposals ≡ lock_proposals proposals p.proposals)
  unfolding perform decided validate
  stage-start private caller now p q at h = ground arith
  stage-start _ caller now p q at h = ground arith

  stage-register :
      (s : PollState) (caller : Caller) (now : ℕ) (p q : Poll B)
      → p.state ≡ s
      → first_stage s make_ongoing caller now p ≡ taken q
      → is_some p.meeting ≡ true
      → (p.er_policy_registered ≡ true)
        × (method.apply p.count.electoral_register ≡ some q.count.electoral_register)
        × ((p.has_latest_er || not p.require_manual) ≡ true)
  unfolding perform decided validate
  stage-register private caller now p q at h has_meeting = ground arith
  stage-register _ caller now p q at h has_meeting = ground arith

  stage-cancel :
      (s : PollState) (caller : Caller) (now : ℕ) (p q : Poll B)
      → p.state ≡ s
      → first_stage s cancel caller now p ≡ taken q
      → (p.state ≡ ongoing)
        × (q.state ≡ canceled)
        × (q.count ≡ p.count)
        × (q.proposals ≡ publish_proposals proposals p.proposals)
  unfolding perform decided validate
  stage-cancel private caller now p q at h = ground arith
  stage-cancel _ caller now p q at h = ground arith

  stage-publish_result :
      (s : PollState) (caller : Caller) (now : ℕ) (p q : Poll B) (r : PollResult)
      → p.state ≡ s
      → p.count.result_data ≡ some r
      → first_stage s publish_result caller now p ≡ taken q
      → (p.state ≡ withheld)
        × (q.state ≡ finished)
        × (q.withheld_result ≡ false)
        × (q.proposals ≡ set_proposals proposals r p.proposals)
  unfolding perform decided validate
  stage-publish_result private caller now p q r at has_result h = ground arith
  stage-publish_result _ caller now p q r at has_result h = ground arith

  module _ (engine : Engine (Transition PollState Event Guard) Error) where
    send-cases :
        (event : Event) (caller : Caller) (now : ℕ) (p p' : Poll B)
        → send proposals method engine event caller now p ≡ taken p'
        → ((q : Poll B) → first_stage p.state event caller now p ≡ taken q → q.state ≢ closed)
        → first_stage p.state event caller now p ≡ taken p'
    send-cases event caller now p p' h away =
        let (q, first, second) =
          step-cases proposals method event caller now p p'
            (rw (send-step proposals method engine event caller now p) at h) in
        rw (settled_quiet proposals method caller now q p' second (away q first)) at first

    -- A poll starts only from `private` or `upcoming`, with permission, with valid settings and
    -- proposals that its method accepts, and in an ongoing meeting and agenda item if it has both; it
    -- then is ongoing with its start time, and none of its proposals is left `published`.
    pub start_poll :
        (caller : Caller) (now : ℕ) (p p' : Poll B)
        → send proposals method engine make_ongoing caller now p ≡ taken p'
        → (poll_permissive p.state ≡ true)
          × (validate method caller p has_change_state_permission ≡ none)
          × (method.settings_valid ≡ true)
          × (method.start_check p.proposals ≡ true)
          × (both_ongoing p.meeting p.agenda_item ≡ none)
          × (p'.state ≡ ongoing)
          × (p'.started ≡ some now)
          × (every (λ q. not (in_state published q)) p'.proposals ≡ true)
    start_poll caller now p p' h =
        let first =
          send-cases make_ongoing caller now p p' h
            (λ q k. ground (arith, stage-start p.state caller now p q refl k)) in
        let (a, b, c, d, f, g, s, locked) = stage-start p.state caller now p p' refl first in
        (a, b, c, d, f, g, s, rw locked (lock-gone proposals p.proposals))

    -- A poll of a meeting starts only under a registered policy, one that must be triggered by hand
    -- only where the meeting has a register already, and gets the register that the policy applies.
    pub start_poll_register :
        (caller : Caller) (now : ℕ) (p p' : Poll B)
        → is_some p.meeting ≡ true
        → send proposals method engine make_ongoing caller now p ≡ taken p'
        → (p.er_policy_registered ≡ true)
          × (method.apply p.count.electoral_register ≡ some p'.count.electoral_register)
          × ((p.has_latest_er || not p.require_manual) ≡ true)
    start_poll_register caller now p p' has_meeting h =
        stage-register p.state caller now p p' refl
          (send-cases make_ongoing caller now p p' h
            (λ q k. ground (arith, stage-start p.state caller now p q refl k)))
          has_meeting

    -- Only an ongoing poll is canceled; its votes, register and count stay, so that it can still be
    -- closed, and none of its proposals is left locked for voting.
    pub cancel_poll :
        (caller : Caller) (now : ℕ) (p p' : Poll B)
        → send proposals method engine cancel caller now p ≡ taken p'
        → (p.state ≡ ongoing)
          × (p'.state ≡ canceled)
          × (p'.count ≡ p.count)
          × (every (λ q. not (in_state voting q)) p'.proposals ≡ true)
    cancel_poll caller now p p' h =
        let first =
          send-cases cancel caller now p p' h
            (λ q k. ground (arith, stage-cancel p.state caller now p q refl k)) in
        let (a, b, c, freed) = stage-cancel p.state caller now p p' refl first in
        (a, b, c, rw freed (publish-gone proposals p.proposals))

    -- Publishing a withheld result finishes the poll, no longer withholds it, and gives each proposal
    -- the state of the result: approved or denied as the result has it, unless it was retracted or
    -- unhandled, and published if the result has it in neither list.
    pub publish_poll :
        (caller : Caller) (now : ℕ) (p p' : Poll B) (r : PollResult)
        → p.count.result_data ≡ some r
        → send proposals method engine publish_result caller now p ≡ taken p'
        → (p.state ≡ withheld)
          × (p'.state ≡ finished)
          × (p'.withheld_result ≡ false)
          × (p'.proposals ≡ map (judged r) p.proposals)
    publish_poll caller now p p' r has_result h =
        let first = send-cases publish_result caller now p p' h (λ q k.
          ground (arith, stage-publish_result p.state caller now p q r refl has_result k)) in
        let (a, b, c, set) = stage-publish_result p.state caller now p p' r refl has_result first in
        (a, b, c, set ∙ set_proposals-verdict proposals r p.proposals)
