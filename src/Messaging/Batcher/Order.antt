-- ===== src/Messaging/Batcher/Order.antt =====
-- The groups go out in an order that has each key once.
use voteit.Prelude.{
  ◌≡◌, refl, sym, ap, ◌∙◌, Bool, true, false, not, ◌&&◌, ◌||◌, List, [], ◌∷◌, ◌++◌, if◌then◌else◌,
  Bool-cases, inl, inr, arith,
}
use voteit.Messaging.{Message}
use voteit.Messaging.Batcher.{
  Target, Key, same_key, has_key, key_of, Grouped, append_to, in_grouped, group_all,
}
use voteit.Messaging.Batcher.Kept.{same_key_self, eq_of_same_key, in_grouped-append_to}

abbrev pub distinct_keys : List Key → Bool
distinct_keys [] = true
distinct_keys (k ∷ ks) = not (has_key k ks) && distinct_keys ks

has_key-append :
    (k j : Key) (ks : List Key) → has_key k (ks ++ j ∷ []) ≡ (has_key k ks || same_key j k)
has_key-append k j [] = ground arith
has_key-append k j (i ∷ ks) = ground (arith, has_key-append k j ks)

distinct_keys-append :
    (j : Key) (ks : List Key)
    → has_key j ks ≡ false
    → distinct_keys ks ≡ true
    → distinct_keys (ks ++ j ∷ []) ≡ true
distinct_keys-append j [] h d = refl
distinct_keys-append j (i ∷ ks) h d =
    let apart : same_key j i ≡ false = elim (Bool-cases (same_key j i)) [
      | inl same ↦
          absurd (ground (arith, ap (λ l. same_key i l) (eq_of_same_key j i same), same_key_self i))
      | inr other ↦ other
    ] in
    ground (arith, has_key-append i j ks, distinct_keys-append j ks)

swap_or : (a b c : Bool) → ((a || b) || c) ≡ (b || (a || c))
swap_or a b c = ground arith

module _ {P : Type 0} where
  abbrev pub some_chosen : Key → List (Message P × Target) → Bool
  some_chosen k [] = false
  some_chosen k ((m, t) ∷ sent) = same_key (key_of (m, t)) k || some_chosen k sent

  -- `order` has the keys of `grouped`, each once
  abbrev pub Agrees : List Key → Grouped P → Type 0
  Agrees order g = ((k : Key) → in_grouped k g ≡ has_key k order) × (distinct_keys order ≡ true)

  abbrev longer : Key → List Key → Grouped P → List Key
  longer key order g = if in_grouped key g then order else order ++ key ∷ []

  has_key-longer :
      (key k : Key) (order : List Key) (g : Grouped P)
      → Agrees order g
      → has_key k (longer key order g) ≡ (same_key key k || has_key k order)
  has_key-longer key k order g h = elim (Bool-cases (in_grouped key g)) [
    | inl known ↦ elim (Bool-cases (same_key key k)) [
      | inl same ↦
          let there : has_key k order ≡ true =
            ap (λ l. has_key l order) (sym (eq_of_same_key key k same)) ∙ sym (h.0 key) ∙ known in
          rw (known, same) there
      | inr other ↦ rw (known, other) refl
    ]
    | inr new ↦ rw new (ground (arith, has_key-append k key order))
  ]

  Agrees-longer :
      (key : Key) (m : Message P) (order : List Key) (g : Grouped P)
      → Agrees order g
      → Agrees (longer key order g) (append_to key m g)
  Agrees-longer key m order g h = (
    λ k.
        in_grouped-append_to k key m g
        ∙ ap (λ b. same_key key k || b) (h.0 k)
        ∙ sym (has_key-longer key k order g h),
    elim (Bool-cases (in_grouped key g)) [
      | inl known ↦ rw known h.1
      | inr new ↦ rw new (distinct_keys-append key order (sym (h.0 key) ∙ new) h.1)
    ],
  )

  pub group_all-order :
      (sent : List (Message P × Target)) (order : List Key) (g : Grouped P)
      → Agrees order g
      → ((k : Key) → has_key k (group_all sent order g).0 ≡ (has_key k order || some_chosen k sent))
        × (distinct_keys (group_all sent order g).0 ≡ true)
  group_all-order [] order g h = (λ k. ground arith, h.1)
  group_all-order ((m, t) ∷ sent) order g h =
      let key = key_of (m, t) in
      let (keys, once) =
        group_all-order sent (longer key order g) (append_to key m g)
          (Agrees-longer key m order g h) in
      (
        λ k.
            keys k
            ∙ ap (λ b. b || some_chosen k sent) (has_key-longer key k order g h)
            ∙ swap_or (same_key key k) (has_key k order) (some_chosen k sent),
        once,
      )
