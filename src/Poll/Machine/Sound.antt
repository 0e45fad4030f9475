-- ===== src/Poll/Machine/Sound.antt =====
-- The ballot package and the result of a poll in each of its states (voteit/poll/statemachines.py).
use voteit.Prelude.{
  ℕ, ◌≡◌, ◌≢◌, refl, true, false, ◌&&◌, not, Option, none, some, List, [], ◌∷◌, is_some, exists,
  Counter, Eq, arith, Option-cases, inl, inr, ◌⊎◌, sym,
}
use voteit.Core.Chart.{Transition, Choice, taken, refused, not_enabled, Engine}
use voteit.States.{ProposalState, PollState, poll_finished}
use voteit.States.PollState.{private, closed}
use voteit.Proposal
use voteit.Proposal.{Caller}
use voteit.Poll.Register.{Register, Vote}
use voteit.Poll.Ballots.{
  Count, count_votes, in_register, cleanup_removed_from_er_votes, calculate_result,
}
use voteit.Poll.Machine.{
  Poll, Event, make_upcoming, make_ongoing, close, publish_result, withhold_result, cancel,
  unpublish, is_nil, has_change_state_permission, Error, Method, validate, populated, valid_votes,
}
use voteit.Poll.Machine.Actions.{perform, decided, then_, settled, step}
use voteit.Poll.Machine.Closing.{closable, outcome, counted, resolved, closing, step-close}

module _ {B : Type 0} where
  -- A poll has its ballot package, and its result, exactly in the two finished states, and is never
  -- left in `closed`.
  pub record IsSound (p : Poll B) : Type 0 where
    pub packed : is_some p.count.ballot_data ≡ poll_finished p.state
    pub has_result : is_some p.count.result_data ≡ poll_finished p.state
    pub settled : p.state ≢ closed

  no_voters :
      (er : Register) (vs : List (Vote B))
      → is_nil er.voter_data ≡ true
      → exists (λ v. not v.abstain) (in_register er vs) ≡ false
  no_voters er [] h = refl
  no_voters er (v ∷ vs) h = ground (arith, no_voters er vs)

module _
    (proposals : Engine (Transition ProposalState Proposal.Event Proposal.Guard) Proposal.Error)
    {B : Type 0} ⦃e : Eq (Option B)⦄ (method : Method B) where
  -- what the count leaves of an unfinished poll
  pub counted-votes :
      (c : Count B) (er : Register)
      → c.electoral_register ≡ some er
      → (counted proposals method c).votes ≡ in_register er c.votes
  unfolding cleanup_removed_from_er_votes calculate_result
  counted-votes c er has_er = ground arith

  pub counted-register :
      (c : Count B) → (counted proposals method c).electoral_register ≡ c.electoral_register
  unfolding cleanup_removed_from_er_votes calculate_result
  counted-register c = ground arith

  counted-result :
      (c : Count B)
      → c.ballot_data ≡ none
      → c.result_data ≡ none
      → is_some (counted proposals method c).result_data ≡ true
      → is_some (counted proposals method c).ballot_data ≡ true
  unfolding cleanup_removed_from_er_votes calculate_result
  counted-result c a b h = ground arith

  counted-idle :
      (c : Count B)
      → c.ballot_data ≡ none
      → c.result_data ≡ none
      → (valid_votes (counted proposals method c)
          && populated (counted proposals method c).electoral_register)
        ≡ false
      → ((counted proposals method c).result_data ≡ none)
        × ((counted proposals method c).ballot_data ≡ none)
  unfolding cleanup_removed_from_er_votes calculate_result
  counted-idle c a b h = elim (Option-cases c.electoral_register) [
    | inl missing ↦ (ground arith, ground arith)
    | inr (er, has_er) ↦
        (ground (arith, no_voters er c.votes), ground (arith, no_voters er c.votes))
  ]

  -- A method that never fails gives a result for an unfinished poll with a vote to count.
  pub counted-succeeds :
      (c : Count B) (er : Register)
      → c.ballot_data ≡ none
      → c.result_data ≡ none
      → c.electoral_register ≡ some er
      → exists (λ v. not v.abstain) (in_register er c.votes) ≡ true
      → ((counter : Counter (Option B)) → is_some (method.calculate counter) ≡ true)
      → is_some (counted proposals method c).result_data ≡ true
  unfolding cleanup_removed_from_er_votes calculate_result
  counted-succeeds c er a b has_er voted total =
      ground (arith, total (count_votes er (in_register er c.votes) 0 []).1)

  resolved-IsSound :
      (q : Poll B)
      → (is_some q.count.result_data ≡ true → is_some q.count.ballot_data ≡ true)
      → ((valid_votes q.count && populated q.count.electoral_register) ≡ false
          → (q.count.result_data ≡ none) × (q.count.ballot_data ≡ none))
      → IsSound (resolved proposals method (outcome q.withheld_result q.count) q)
  resolved-IsSound q both idle = ground arith

  close-IsSound :
      (now : ℕ) (p : Poll B)
      → IsSound p
      → closable p.state ≡ true
      → IsSound (
          resolved proposals method
            (outcome p.withheld_result (counted proposals method p.count))
            (closing proposals method now p))
  close-IsSound now p s open_state =
      let unpacked : p.count.ballot_data ≡ none = ground arith in
      let unset : p.count.result_data ≡ none = ground arith in
      resolved-IsSound (closing proposals method now p) (counted-result p.count unpacked unset)
        (counted-idle p.count unpacked unset)

  quiet :
      (caller : Caller) (p : Poll B)
      → p.state ≢ closed
      → decided proposals method p.state none caller p ≡ not_enabled
  unfolding decided
  quiet caller p open_state = ground arith

  enter-close :
      (s : PollState) (caller : Caller) (now : ℕ) (p q : Poll B)
      → perform proposals method now p (decided proposals method s (some close) caller p) ≡ taken q
      → closable s ≡ true × validate method caller p has_change_state_permission ≡ none
  unfolding perform decided validate
  enter-close s caller now p q h = ground arith

  perform-IsSound :
      (s : PollState) (event : Event) (caller : Caller) (now : ℕ) (p q : Poll B)
      → p.state ≡ s
      → perform proposals method now p (decided proposals method s (some event) caller p) ≡ taken q
      → event ≢ close
      → IsSound p
      → IsSound q
  unfolding perform decided
  perform-IsSound private make_upcoming caller now p q at h other sound = ground arith
  perform-IsSound _ make_upcoming caller now p q at h other sound = ground arith
  perform-IsSound private make_ongoing caller now p q at h other sound = ground arith
  perform-IsSound _ make_ongoing caller now p q at h other sound = ground arith
  perform-IsSound s close caller now p q at h other sound = absurd (other refl)
  perform-IsSound private publish_result caller now p q at h other sound = ground arith
  perform-IsSound _ publish_result caller now p q at h other sound = ground arith
  perform-IsSound private withhold_result caller now p q at h other sound = ground arith
  perform-IsSound _ withhold_result caller now p q at h other sound = ground arith
  perform-IsSound private cancel caller now p q at h other sound = ground arith
  perform-IsSound _ cancel caller now p q at h other sound = ground arith
  perform-IsSound private unpublish caller now p q at h other sound = ground arith
  perform-IsSound _ unpublish caller now p q at h other sound = ground arith

  then_-taken :
      (o : Choice (Poll B) Error) (f : Poll B → Choice (Poll B) Error) (p : Poll B)
      → then_ proposals method o f ≡ taken p
      → (q : Poll B) × (o ≡ taken q) × (f q ≡ taken p)
  then_-taken (taken q) f p h = (q, refl, h)
  then_-taken (refused x) f p h = absurd (ground arith)
  then_-taken not_enabled f p h = absurd (ground arith)

  pub step-cases :
      (event : Event) (caller : Caller) (now : ℕ) (p p' : Poll B)
      → step proposals method event caller now p ≡ taken p'
      → (q : Poll B) × (perform proposals method now p
            (decided proposals method p.state (some event) caller p)
          ≡ taken q)
        × (settled proposals method q
              (perform proposals method now q (decided proposals method q.state none caller q))
            ≡ taken p')
  unfolding step
  step-cases event caller now p p' h =
      then_-taken
        (perform proposals method now p (decided proposals method p.state (some event) caller p))
        (λ q.
          settled proposals method q
            (perform proposals method now q (decided proposals method q.state none caller q)))
        p' h

  pub settled_quiet :
      (caller : Caller) (now : ℕ) (q p' : Poll B)
      → settled proposals method q
          (perform proposals method now q (decided proposals method q.state none caller q))
        ≡ taken p'
      → q.state ≢ closed
      → q ≡ p'
  unfolding perform
  settled_quiet caller now q p' h open_state = ground (arith, quiet caller q open_state)

  pub step-IsSound :
      (event : Event) (caller : Caller) (now : ℕ) (p p' : Poll B)
      → step proposals method event caller now p ≡ taken p'
      → (event ≡ close) ⊎ (event ≢ close)
      → IsSound p
      → IsSound p'
  step-IsSound event caller now p p' h (inr other) sound =
      let (q, first, second) = step-cases event caller now p p' h in
      let q-sound = perform-IsSound p.state event caller now p q refl first other sound in
      rw (sym (settled_quiet caller now q p' second q-sound.settled)) q-sound
  step-IsSound event caller now p p' h (inl same) sound =
      let h' : step proposals method close caller now p ≡ taken p' = rw (sym same) h in
      let (q, first, second) = step-cases close caller now p p' h' in
      let (open_state, permitted) = enter-close p.state caller now p q first in
      ground (
        arith,
        h',
        step-close proposals method caller now p open_state permitted,
        close-IsSound now p sound open_state,
      )
