-- ===== src/Messaging/Bundles/Measured.antt =====
-- The pieces of a section are not longer than they are taken to be.
use voteit.Prelude.{
  ℕ, ◌+◌, ◌≤◌, ◌≡◌, refl, Bool, true, ◌&&◌, List, [], ◌∷◌, ◌++◌, leb, total, total-append, arith,
  Bool-cases, inl, inr,
}
use voteit.Messaging.{Message, single, batch}
use voteit.Messaging.Bundles.{Sizes, split_items, split_batch, sized}

module _ {P : Type 0} (sizes : Sizes P) where
  abbrev pub items_size : List P → ℕ
  items_size = total (λ p. sizes.item_size p + 1)

  -- What the code counts on: a batch is not longer than its envelope with its items and a comma for each.
  abbrev pub Additive : Type 0
  Additive =
      (action : ℕ) (items : List P)
      → sizes.message_size (batch action items) ≤ sizes.envelope action + items_size items

  abbrev pub messages_size : List (Message P) → ℕ
  messages_size = total (sizes.message_size)

  abbrev pub measured : List (Message P × ℕ) → Bool
  measured [] = true
  measured ((m, n) ∷ pieces) = leb (sizes.message_size m) n && measured pieces

  measured-append :
      (xs ys : List (Message P × ℕ))
      → measured xs ≡ true
      → measured ys ≡ true
      → measured (xs ++ ys) ≡ true
  measured-append [] ys h k = k
  measured-append ((m, n) ∷ xs) ys h k = ground (arith, measured-append xs ys)

  module _ (usable : ℕ) where
    split_items-measured :
        (additive : Additive) (overhead a : ℕ) (chunk : List P) (n : ℕ) (items : List P)
        → items_size chunk ≤ n
        → measured (split_items sizes usable overhead a chunk n items) ≡ true
    split_items-measured additive overhead a chunk n [] h = ground (arith, additive a chunk)
    split_items-measured additive overhead a chunk n (i ∷ items) h = ground (
      arith,
      additive a chunk,
      total-append (λ p. sizes.item_size p + 1) chunk (i ∷ []),
      split_items-measured additive overhead a (i ∷ []) (sizes.item_size i + 1) items,
      split_items-measured additive overhead a (chunk ++ i ∷ []) (n + (sizes.item_size i + 1))
          items,
    )

    split_batch-measured :
        (additive : Additive) (overhead : ℕ) (m : Message P)
        → measured (split_batch sizes usable overhead m) ≡ true
    unfolding split_batch
    split_batch-measured additive overhead (single a p) = ground arith
    split_batch-measured additive overhead (batch a []) = ground arith
    split_batch-measured additive overhead (batch a (p ∷ ps)) =
        split_items-measured additive overhead a [] 0 (p ∷ ps) (omega arith)

    pub sized-measured :
        (additive : Additive) (overhead : ℕ) (ms : List (Message P))
        → measured (sized sizes usable overhead ms) ≡ true
    unfolding sized
    sized-measured additive overhead [] = refl
    sized-measured additive overhead (m ∷ ms) =
        elim (Bool-cases (leb (sizes.message_size m + overhead) usable)) [
          | inl fits ↦ rw fits (ground (arith, sized-measured additive overhead ms))
          | inr big ↦ rw big (
              measured-append (split_batch sizes usable overhead m) (sized sizes usable overhead ms)
                (split_batch-measured additive overhead m) (sized-measured additive overhead ms))
        ]
