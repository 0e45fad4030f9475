-- ===== src/Messaging/Bundles/Split.antt =====
-- A message that is split says what it said.
use voteit.Prelude.{
  ℕ, ◌+◌, ◌≡◌, refl, sym, ap, ◌∙◌, List, [], ◌∷◌, ◌++◌, leb, arith, Bool-cases, inl, inr,
}
use mathlib.Core.List.{append_assoc, append-nil}
use voteit.Messaging.{Message, single, batch, labelled, payloads, all_payloads}
use voteit.Messaging.Bundles.{Sizes, split_items, split_batch, sized}

module _ {P : Type 0} where
  abbrev pub pieces_of : List (Message P × ℕ) → List (Message P)
  pieces_of [] = []
  pieces_of ((m, n) ∷ ms) = m ∷ pieces_of ms

  pub pieces_of-append :
      (xs ys : List (Message P × ℕ)) → pieces_of (xs ++ ys) ≡ pieces_of xs ++ pieces_of ys
  pieces_of-append [] ys = refl
  pieces_of-append ((m, n) ∷ xs) ys = ap (λ ms. m ∷ ms) (pieces_of-append xs ys)

  pub all_payloads-append :
      (xs ys : List (Message P)) → all_payloads (xs ++ ys) ≡ all_payloads xs ++ all_payloads ys
  all_payloads-append [] ys = refl
  all_payloads-append (m ∷ xs) ys =
      ap (λ ps. payloads m ++ ps) (all_payloads-append xs ys)
      ∙ sym (append_assoc (payloads m) (all_payloads xs) (all_payloads ys))

  labelled-append :
      (a : ℕ) (xs ys : List P) → labelled a (xs ++ ys) ≡ labelled a xs ++ labelled a ys
  labelled-append a [] ys = refl
  labelled-append a (x ∷ xs) ys = ap (λ ps. (a, x) ∷ ps) (labelled-append a xs ys)

  module _ (sizes : Sizes P) (usable : ℕ) where
    split_items-payloads :
        (overhead a : ℕ) (chunk : List P) (n : ℕ) (items : List P)
        → all_payloads (pieces_of (split_items sizes usable overhead a chunk n items))
          ≡ labelled a (chunk ++ items)
    split_items-payloads overhead a [] n [] = refl
    split_items-payloads overhead a (c ∷ chunk) n [] =
        append-nil (labelled a (c ∷ chunk)) ∙ ap (labelled a) (sym (append-nil (c ∷ chunk)))
    split_items-payloads overhead a chunk n (i ∷ items) = ground (
      arith,
      split_items-payloads overhead a (i ∷ []) (sizes.item_size i + 1) items,
      split_items-payloads overhead a (chunk ++ i ∷ []) (n + (sizes.item_size i + 1)) items,
      labelled-append a chunk (i ∷ items),
      append_assoc chunk (i ∷ []) items,
    )

    split_batch-payloads :
        (overhead : ℕ) (m : Message P)
        → all_payloads (pieces_of (split_batch sizes usable overhead m)) ≡ payloads m
    unfolding split_batch
    split_batch-payloads overhead (single a p) = refl
    split_batch-payloads overhead (batch a []) = refl
    split_batch-payloads overhead (batch a (p ∷ ps)) = split_items-payloads overhead a [] 0 (p ∷ ps)

    pub sized-payloads :
        (overhead : ℕ) (ms : List (Message P))
        → all_payloads (pieces_of (sized sizes usable overhead ms)) ≡ all_payloads ms
    unfolding sized
    sized-payloads overhead [] = refl
    sized-payloads overhead (m ∷ ms) =
        elim (Bool-cases (leb (sizes.message_size m + overhead) usable)) [
          | inl fits ↦ rw fits (ap (λ ps. payloads m ++ ps) (sized-payloads overhead ms))
          | inr big ↦ rw big (
              ap all_payloads (
                pieces_of-append (split_batch sizes usable overhead m)
                  (sized sizes usable overhead ms))
              ∙ all_payloads-append (pieces_of (split_batch sizes usable overhead m))
                  (pieces_of (sized sizes usable overhead ms))
              ∙ ground (arith, split_batch-payloads overhead m, sized-payloads overhead ms))
        ]
