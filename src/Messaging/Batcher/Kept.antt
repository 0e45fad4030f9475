-- ===== src/Messaging/Batcher/Kept.antt =====
-- The group of a key has the messages of that key, in their order.
use voteit.Prelude.{
  ◌≡◌, refl, sym, ap, ◌∙◌, Bool, true, false, ◌||◌, List, [], ◌∷◌, ◌++◌, if◌then◌else◌, Bool-cases,
  inl, inr, arith,
}
use mathlib.Core.List.{append_assoc, append-nil}
use voteit.Text.Equal.{same_text_self, eq_of_same_text}
use voteit.Messaging.{Message}
use voteit.Messaging.Batcher.{
  Target, Key, same_bool, same_key, key_of, Grouped, append_to, group_of, in_grouped, group_all,
}

same_bool_self : (b : Bool) → same_bool b b ≡ true
same_bool_self b = ground arith

eq_of_same_bool : (a b : Bool) → same_bool a b ≡ true → a ≡ b
eq_of_same_bool a b h = ground arith

pub same_key_self : (k : Key) → same_key k k ≡ true
unfolding same_key
same_key_self k = ground (
  arith,
  same_bool_self k.batched,
  same_bool_self k.target.group,
  same_text_self k.target.name,
  same_text_self k.target.layer,
)

pub eq_of_same_key : (k l : Key) → same_key k l ≡ true → k ≡ l
unfolding same_key
eq_of_same_key k l h =
    let b : k.batched ≡ l.batched = eq_of_same_bool k.batched l.batched (ground arith) in
    let a : k.action ≡ l.action = ground arith in
    let n : k.target.name ≡ l.target.name =
      eq_of_same_text k.target.name l.target.name (ground arith) in
    let g : k.target.group ≡ l.target.group =
      eq_of_same_bool k.target.group l.target.group (ground arith) in
    let y : k.target.layer ≡ l.target.layer =
      eq_of_same_text k.target.layer l.target.layer (ground arith) in
    λ i. record {
      batched = b i;
      action = a i;
      target = record { name = n i; group = g i; layer = y i };
    }

pub unlike_key : (i j k : Key) → same_key i j ≡ false → same_key i k ≡ true → same_key j k ≡ false
unlike_key i j k other his = elim (Bool-cases (same_key j k)) [
  | inl same ↦ absurd (ground (arith, ap (λ l. same_key i l) (eq_of_same_key j k same)))
  | inr differ ↦ differ
]

module _ {P : Type 0} where
  -- the messages of a key, in the order in which they were added
  abbrev pub chosen : Key → List (Message P × Target) → List (Message P)
  chosen k [] = []
  chosen k ((m, t) ∷ sent) =
      let rest = chosen k sent in if same_key (key_of (m, t)) k then m ∷ rest else rest

  group_of-append_to :
      (k j : Key) (m : Message P) (g : Grouped P)
      → group_of k (append_to j m g)
        ≡ (if same_key j k then group_of k g ++ m ∷ [] else group_of k g)
  group_of-append_to k j m [] = ground arith
  group_of-append_to k j m ((i, ms) ∷ g) = elim (Bool-cases (same_key i j)) [
    | inl same ↦ rw (same, eq_of_same_key i j same) (ground arith)
    | inr other ↦ elim (Bool-cases (same_key i k)) [
      | inl his ↦
          let unlike : same_key j k ≡ false = unlike_key i j k other his in
          rw (other, his, unlike) refl
      | inr else_where ↦ rw (other, else_where) (group_of-append_to k j m g)
    ]
  ]

  pub in_grouped-append_to :
      (k j : Key) (m : Message P) (g : Grouped P)
      → in_grouped k (append_to j m g) ≡ (same_key j k || in_grouped k g)
  in_grouped-append_to k j m [] = ground arith
  in_grouped-append_to k j m ((i, ms) ∷ g) = elim (Bool-cases (same_key i j)) [
    | inl same ↦ rw (same, eq_of_same_key i j same) (ground arith)
    | inr other ↦ rw other (ground (arith, in_grouped-append_to k j m g))
  ]

  pub group_all-group_of :
      (sent : List (Message P × Target)) (k : Key) (order : List Key) (g : Grouped P)
      → group_of k (group_all sent order g).1 ≡ group_of k g ++ chosen k sent
  group_all-group_of [] k order g = sym (append-nil (group_of k g))
  group_all-group_of ((m, t) ∷ sent) k order g =
      let key = key_of (m, t) in
      group_all-group_of sent k (if in_grouped key g then order else order ++ key ∷ [])
        (append_to key m g)
      ∙ ap (λ ms. ms ++ chosen k sent) (group_of-append_to k key m g)
      ∙ elim (Bool-cases (same_key key k)) [
        | inl same ↦ rw same (append_assoc (group_of k g) (m ∷ []) (chosen k sent))
        | inr other ↦ rw other refl
      ]
