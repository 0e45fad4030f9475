-- ===== src/Agenda/Order.antt =====
-- The order that a new agenda item gets (`AgendaItem.save`).
use voteit.Prelude.{
  ℕ, ◌≤◌, ◌<◌, ◌≡◌, refl, true, false, none, some, List, [], ◌∷◌, member, arith, Option-cases, inl,
  inr,
}
use voteit.Agenda.{max_order, saved_order}

pub max_order-none : (ns : List ℕ) (n : ℕ) → max_order ns ≡ none → member n ns ≡ false
max_order-none [] n e = refl
max_order-none (x ∷ xs) n e = elim (Option-cases (max_order xs)) [
  | inl d ↦ absurd (ground arith)
  | inr (j, d) ↦ absurd (ground arith)
]

pub max_order-bounds : (ns : List ℕ) (n k : ℕ) → member n ns ≡ true → max_order ns ≡ some k → n ≤ k
max_order-bounds [] n k h m = absurd (ground arith)
max_order-bounds (x ∷ xs) n k h m = elim (Option-cases (max_order xs)) [
  | inl e ↦ ground (arith, max_order-none xs n)
  | inr (j, e) ↦ ground (arith, max_order-bounds xs n j)
]

-- An item that is created without an order is put after every item of its meeting.
pub saved_order_last : (orders : List ℕ) (n : ℕ) → member n orders ≡ true → n < saved_order 0 orders
unfolding saved_order
saved_order_last orders n h = elim (Option-cases (max_order orders)) [
  | inl e ↦ absurd (ground (arith, max_order-none orders n))
  | inr (k, e) ↦ ground (arith, max_order-bounds orders n k)
]
