-- ===== src/Proposal/Naming/Tagged.antt =====
-- What a saved proposal has.
use voteit.Prelude.{
  ◌≡◌, refl, ap, ◌∙◌, true, false, ◌&&◌, ◌||◌, Option, List, [], ◌∷◌, ◌++◌, is_none, take, arith,
  Bool-cases, inl, inr,
}
use voteit.Text.{Text, text_in, same_text}
use voteit.Text.Lines.{blank}
use voteit.Text.Equal.{same_text_self, eq_of_same_text}
use voteit.Proposal.Naming.{
  Draft, with_tag, chosen_id, next_id, save_proposal, save_diff, userid_pid, suggestion_base,
}
use voteit.Proposal.Naming.Fresh.{blank-next_id, next_id_fresh}

text_in-append :
    (t : Text) (xs ys : List Text) → text_in t (xs ++ ys) ≡ (text_in t xs || text_in t ys)
text_in-append t [] ys = refl
text_in-append t (x ∷ xs) ys = ground (arith, text_in-append t xs ys)

with_tag_in : (t : Text) (tags : List Text) → text_in t (with_tag t tags) ≡ true
with_tag_in t tags = ground (arith, text_in-append t tags (t ∷ []), same_text_self t)

with_tag_lem :
    (t : Text) (tags : List Text) (u : Text)
    → text_in u (with_tag t tags) ≡ (text_in u tags || same_text t u)
with_tag_lem t tags u = elim (Bool-cases (same_text t u)) [
  | inl same ↦
      let e = eq_of_same_text t u same in
      ground (arith, text_in-append u tags (t ∷ []), ap (λ s. text_in s tags) e)
  | inr other ↦ ground (arith, text_in-append u tags (t ∷ []))
]

with_tag_again : (t : Text) (tags : List Text) → with_tag t (with_tag t tags) ≡ with_tag t tags
with_tag_again t tags = ground (arith, with_tag_in t tags)

module _ (pid_policy : Draft → Option Text) (drawn : Text) where
  chosen_filled :
      (p : Draft)
      → blank drawn ≡ false
      → (blank (chosen_id pid_policy drawn p) && p.in_meeting) ≡ false
  chosen_filled p h = ground arith

  chosen_again :
      (p : Draft)
      → blank drawn ≡ false
      → chosen_id pid_policy drawn (save_proposal pid_policy drawn p) ≡ chosen_id pid_policy drawn p
  unfolding save_proposal
  chosen_again p h = ground (arith, chosen_filled p h)

  -- Whatever the policy: a saved proposal has the tags that it had, its id, and no others; an id that it
  -- had stays; a proposal of a meeting has an id; none without a group counts as a group's; and saving
  -- it again changes nothing.
  pub save_proposal_lem :
      (p : Draft) (t : Text)
      → blank drawn ≡ false
      → let q = save_proposal pid_policy drawn p in
        (text_in t q.tags ≡ (text_in t p.tags || same_text q.prop_id t))
        × ((blank p.prop_id || same_text q.prop_id p.prop_id) ≡ true)
        × ((blank q.prop_id && p.in_meeting) ≡ false)
        × ((q.as_group && is_none q.meeting_group) ≡ false)
        × (save_proposal pid_policy drawn q ≡ q)
  unfolding save_proposal
  save_proposal_lem p t h = (
    with_tag_lem (chosen_id pid_policy drawn p) p.tags t,
    ground (arith, same_text_self p.prop_id),
    chosen_filled p h,
    ground arith,
    ground (
      arith,
      chosen_again p h,
      ap (λ s. with_tag s (with_tag (chosen_id pid_policy drawn p) p.tags)) (chosen_again p h),
      with_tag_again (chosen_id pid_policy drawn p) p.tags,
    ),
  )

-- An amendment has the tag of its paragraph, too.
pub save_diff_lem :
    (pid_policy : Draft → Option Text) (drawn tag : Text) (p : Draft)
    → text_in tag (save_diff pid_policy drawn tag p).tags ≡ true
unfolding save_diff
save_diff_lem pid_policy drawn tag p = ground (
  arith,
  with_tag_lem (chosen_id pid_policy drawn (record p { tags = with_tag tag p.tags }))
      (with_tag tag p.tags) tag,
  with_tag_in tag p.tags,
)

-- A new proposal of a meeting, whose group or author gives a slug that is not empty, gets an id that no
-- proposal of the meeting has, and that is a tag of it.
pub save_fresh :
    (slugify : Text → Text) (pids : List Text) (drawn : Text) (p : Draft)
    → p.in_meeting ≡ true
    → blank p.prop_id ≡ true
    → blank (slugify (suggestion_base p.author p.meeting_group p.as_group)) ≡ false
    → let q = save_proposal (userid_pid slugify pids) drawn p in
      (text_in q.prop_id pids ≡ false)
      × (text_in q.prop_id q.tags ≡ true)
      × (q.prop_id
          ≡ next_id (take 45 (slugify (suggestion_base p.author p.meeting_group p.as_group))) pids)
unfolding save_proposal userid_pid
save_fresh slugify pids drawn p m new slug =
    let base = take 45 (slugify (suggestion_base p.author p.meeting_group p.as_group)) in
    let chosen : chosen_id (userid_pid slugify pids) drawn p ≡ next_id base pids =
      ground (arith, blank-next_id base pids) in
    (
      ap (λ s. text_in s pids) chosen ∙ next_id_fresh base pids,
      with_tag_in (chosen_id (userid_pid slugify pids) drawn p) p.tags,
      chosen,
    )
