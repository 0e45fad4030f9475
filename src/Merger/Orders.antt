-- ===== src/Merger/Orders.antt =====
-- The order of a speaker list after a merge.
use voteit.Prelude.{
  ℕ, zero, suc, ◌+◌, ◌/◌, ◌%◌, ◌<◌, ◌≡◌, ◌≢◌, refl, sym, ap, ◌∙◌, Bool, true, false, not, List, [],
  ◌∷◌, ◌++◌, ◌==◌, ==_iff, if◌then◌else◌, every, map, Bool-cases, inl, inr, arith,
}
use voteit.Text.{Text, str, digits, join, same_text, write_numbers}
use voteit.Text.Lines.{strip, strip_front, strip_back, is_space}
use voteit.Text.Equal.{same_text_self, eq_of_same_text, str_injective}
use voteit.Text.RoundTrip.{digits-ne-nil, split-join, every-plain}
use voteit.Merger.Tables.{replaced_order}

abbrev solid : Text → Bool
solid = every (λ c. not (is_space c))

strip_front-solid : (s : Text) → solid s ≡ true → strip_front s ≡ s
strip_front-solid [] h = refl
strip_front-solid (c ∷ s) h = ground arith

strip_back-solid : (s : Text) → solid s ≡ true → strip_back s ≡ s
strip_back-solid [] h = refl
strip_back-solid (c ∷ s) h = ground (arith, strip_back-solid s)

strip-solid : (s : Text) → solid s ≡ true → strip s ≡ s
unfolding strip
strip-solid s h = ap strip_back (strip_front-solid s h) ∙ strip_back-solid s h

solid-append : (s t : Text) → solid s ≡ true → solid t ≡ true → solid (s ++ t) ≡ true
solid-append [] t h k = k
solid-append (c ∷ s) t h k = ground (arith, solid-append s t)

digit-solid : (d : ℕ) → d < 10 → is_space (48 + d) ≡ false
unfolding is_space
digit-solid d h = ground arith

solid-digits : (rounds n : ℕ) → solid (digits rounds n) ≡ true
solid-digits zero n = refl
solid-digits (suc rounds) n = ground (
  arith,
  solid-digits rounds (n / 10),
  solid-append (digits rounds (n / 10)) ((48 + n % 10) ∷ []),
  digit-solid n,
  digit-solid (n % 10),
)

strip-str : (n : ℕ) → strip (str n) ≡ str n
unfolding str
strip-str n = strip-solid (digits (suc n) n) (solid-digits (suc n) n)

same_text-str : (m n : ℕ) → same_text (str m) (str n) ≡ (m == n)
same_text-str m n = elim (Bool-cases (m == n)) [
  | inl same ↦
      ap (λ k. same_text (str k) (str n)) ((==_iff m n).0 same) ∙ same_text_self (str n) ∙ sym same
  | inr other ↦ elim (Bool-cases (same_text (str m) (str n))) [
    | inl equal ↦ absurd (ground (arith, str_injective m n (eq_of_same_text (str m) (str n) equal)))
    | inr unequal ↦ unequal ∙ sym other
  ]
]

-- the part that is written for a number
abbrev pub new_pk : ℕ → ℕ → ℕ → ℕ
new_pk source target n = if n == source then target else n

abbrev new_part : ℕ → ℕ → Text → Text
new_part source target part = if same_text (strip part) (str source) then str target else part

branches :
    (b : Bool) (target n : ℕ) → (if b then str target else str n) ≡ str (if b then target else n)
branches true target n = refl
branches false target n = refl

new_part-str : (source target n : ℕ) → new_part source target (str n) ≡ str (new_pk source target n)
new_part-str source target n =
    ap (λ p. if same_text p (str source) then str target else str n) (strip-str n)
    ∙ ap (λ b. if b then str target else str n) (same_text-str n source)
    ∙ branches (n == source) target n

map-new_part :
    (source target : ℕ) (ns : List ℕ)
    → map (new_part source target) (map str ns) ≡ map str (map (new_pk source target) ns)
map-new_part source target [] = refl
map-new_part source target (n ∷ ns) =
    λ i. new_part-str source target n i ∷ map-new_part source target ns i

nothing-same : (s : Text) → s ≢ [] → same_text [] s ≡ false
nothing-same [] h = absurd (h refl)
nothing-same (c ∷ s) h = refl

empty-str : (source : ℕ) → same_text (strip []) (str source) ≡ false
unfolding strip str
empty-str source = nothing-same (str source) (digits-ne-nil source source)

-- In an order that was written, the number of the source gives way to that of the target, and every other
-- number stays at its place; the empty order included.
pub replaced_order_lem :
    (source target : ℕ) (ns : List ℕ)
    → replaced_order source target (write_numbers ns)
      ≡ write_numbers (map (new_pk source target) ns)
unfolding replaced_order write_numbers
replaced_order_lem source target [] = rw (empty-str source) refl
replaced_order_lem source target (n ∷ ns) =
    ap (λ parts. join (map (new_part source target) parts))
      (split-join (str n) (map str ns) (every-plain (n ∷ ns)))
    ∙ ap join (map-new_part source target (n ∷ ns))
