-- ===== src/Proposal/Lifecycle.antt =====
-- What moves a proposal, and what the events of the server, which are forced, do to it.
use voteit.Prelude.{◌≡◌, ◌≢◌, ◌⊎◌, refl, true, false, Option, none, some, every, arith, ap}
use voteit.Core.Chart.{
  Transition, Choice, taken, not_enabled, Engine, choose-first_enabled, first_error, fits,
}
use voteit.Core.Roles.{moderator}
use voteit.States.{
  ProposalState, proposal_value, published, retracted, voting, approved, denied, unhandled,
}
use voteit.Rules.{User, has_role, has_perm}
use voteit.Rules.Content.{Proposal, is_author_or_group_author_member}
use voteit.Proposal.{
  Event, event_value, retract, lock_for_vote, approve, deny, mark_unhandled, publish, Caller,
  forced, by, Guard, Error, transitions, validate, holds, perform, send, step,
}

-- Where the event leads from a state; none where the chart has no transition for it.
abbrev pub target : Event → ProposalState → Option ProposalState
target retract published = some retracted
target lock_for_vote published = some voting
target lock_for_vote retracted = some voting
target approve published = some approved
target approve voting = some approved
target approve denied = some approved
target deny published = some denied
target deny voting = some denied
target deny approved = some denied
target mark_unhandled published = some unhandled
target publish published = none
target publish _ = some published
target _ _ = none

abbrev pub moved : Proposal → Option ProposalState → Choice Proposal Error
moved p none = not_enabled
moved p (some s) = taken (record p { state = s })

step_forced :
    (s : ProposalState) (event : Event) (p : Proposal)
    → p.state ≡ s
    → step event forced p ≡ moved p (target event s)
unfolding step
step_forced published event p e = ground arith
step_forced retracted event p e = ground arith
step_forced voting event p e = ground arith
step_forced approved event p e = ground arith
step_forced denied event p e = ground arith
step_forced unhandled event p e = ground arith

step-moderator :
    (event : Event) (user : User) (p p' : Proposal)
    → step event (by user) p ≡ taken p'
    → event ≢ retract
    → has_perm user (has_role user moderator) ≡ true
unfolding step
step-moderator retract user p p' h other = absurd (other refl)
step-moderator lock_for_vote user p p' h other = ground arith
step-moderator approve user p p' h other = ground arith
step-moderator deny user p p' h other = ground arith
step-moderator mark_unhandled user p p' h other = ground arith
step-moderator publish user p p' h other = ground arith

step-author :
    (user : User) (p p' : Proposal)
    → step retract (by user) p ≡ taken p'
    → has_perm user (has_role user moderator) ≡ false
    → is_author_or_group_author_member user p ≡ true
unfolding step
step-author user p p' h other = ground arith

module _ (engine : Engine (Transition ProposalState Event Guard) Error) where
  pub send-step :
      (event : Event) (caller : Caller) (p : Proposal)
      → send engine event caller p ≡ step event caller p
  unfolding send step
  send-step event caller p = ap (perform p) (
      choose-first_enabled engine (fits proposal_value event_value p.state (some event))
        (λ t. first_error (validate caller p) t.validators) (λ t. every holds t.conds) transitions)

  -- A forced event is never refused, and moves the proposal exactly as the table `target` says,
  -- changing nothing else of it.
  pub send_forced :
      (event : Event) (p : Proposal) → send engine event forced p ≡ moved p (target event p.state)
  send_forced event p = rw (send-step event forced p) (step_forced p.state event p refl)

  -- A user moves a proposal by any event but `retract` only as a moderator or a superuser; he retracts it
  -- only as a moderator, a superuser, or as its author or a member of the group that is its author.
  pub send_by_user :
      (event : Event) (user : User) (p p' : Proposal)
      → send engine event (by user) p ≡ taken p'
      → (has_perm user (has_role user moderator) ≡ true)
        ⊎ ((event ≡ retract) × (is_author_or_group_author_member user p ≡ true))
  send_by_user event user p p' h =
      let done = rw (send-step event (by user) p) at h in
      ground (arith, step-moderator event user p p' done, step-author user p p')
