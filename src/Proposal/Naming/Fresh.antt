-- ===== src/Proposal/Naming/Fresh.antt =====
-- Ids that no proposal of the meeting has.
use voteit.Prelude.{
  ℕ, ◌+◌, ◌≡◌, refl, ap, true, false, some, List, [], ◌∷◌, ◌++◌, member, take, arith, Option-cases,
  Bool-cases, inl, inr,
}
use mathlib.Core.List.{append_assoc}
use voteit.Text.{Text, str, text_in, same_text}
use voteit.Text.Lines.{blank}
use voteit.Text.Equal.{eq_of_same_text}
use voteit.Text.RoundTrip.{int-str}
use voteit.Agenda.{max_order}
use voteit.Agenda.Order.{max_order-none, max_order-bounds}
use voteit.Proposal.Naming.{
  Draft, dash, after_prefix, id_number, id_numbers, next_id, suggestion, suggestion_base,
  userid_pid,
}

after_prefix-append : (p s : Text) → after_prefix p (p ++ s) ≡ some s
after_prefix-append [] s = refl
after_prefix-append (c ∷ p) s = ground (arith, after_prefix-append p s)

id_number_of : (base : Text) (n : ℕ) → id_number base (base ++ dash ∷ str n) ≡ some n
unfolding id_number
id_number_of base n = ground (
  arith,
  append_assoc base (dash ∷ []) (str n),
  after_prefix-append (base ++ dash ∷ []) (str n),
  int-str n,
)

id_numbers-member :
    (base pid : Text) (n : ℕ) (pids : List Text)
    → id_number base pid ≡ some n
    → text_in pid pids ≡ true
    → member n (id_numbers base pids) ≡ true
id_numbers-member base pid n [] e h = cc
id_numbers-member base pid n (q ∷ pids) e h = elim (Bool-cases (same_text q pid)) [
  | inl same ↦ let f = eq_of_same_text q pid same in ground (arith, ap (id_number base) f)
  | inr other ↦ ground (arith, id_numbers-member base pid n pids e)
]

not_taken : (base : Text) (pids : List Text) → text_in (next_id base pids) pids ≡ true → ⊥
unfolding next_id
not_taken base pids h =
    let ns = id_numbers base pids in
    elim (Option-cases (max_order ns)) [
      | inl e ↦ ground (
        arith,
        id_number_of base 1,
        id_numbers-member base (base ++ dash ∷ str 1) 1 pids,
        max_order-none ns 1,
      )
      | inr (m, e) ↦ ground (
        arith,
        id_number_of base (m + 1),
        id_numbers-member base (base ++ dash ∷ str (m + 1)) (m + 1) pids,
        max_order-bounds ns (m + 1) m,
      )
    ]

blank-append : (s : Text) (c : ℕ) (t : Text) → blank (s ++ c ∷ t) ≡ false
blank-append [] c t = refl
blank-append (d ∷ s) c t = refl

pub blank-next_id : (base : Text) (pids : List Text) → blank (next_id base pids) ≡ false
unfolding next_id
blank-next_id base pids = blank-append base dash _

pub next_id_fresh : (base : Text) (pids : List Text) → text_in (next_id base pids) pids ≡ false
next_id_fresh base pids = elim (Bool-cases (text_in (next_id base pids) pids)) [
  | inl taken ↦ absurd (not_taken base pids taken)
  | inr free ↦ free
]

module _ (slugify : Text → Text) where
  -- Where the policy names an id, no proposal of the meeting has it, whatever ids these have; it is a
  -- prefix of at most 45 characters of the slug of the group, for a proposal as a group, or else of the
  -- author, a dash and a number.
  pub userid_pid_lem :
      (pids : List Text) (p : Draft) (s : Text)
      → userid_pid slugify pids p ≡ some s
      → (text_in s pids ≡ false)
        × (s
            ≡ next_id
                (take 45 (slugify (suggestion_base p.author p.meeting_group p.as_group)))
                pids)
  unfolding userid_pid suggestion
  userid_pid_lem pids p s h = ground (
    arith,
    next_id_fresh (take 45 (slugify (suggestion_base p.author p.meeting_group p.as_group))) pids,
  )
