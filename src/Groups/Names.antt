-- ===== src/Groups/Names.antt =====
-- Identifiers of groups and numbers of participants.
use voteit.Prelude.{
  ℕ, zero, suc, ◌+◌, ◌-◌, ◌≤◌, ◌<◌, ◌≡◌, refl, true, false, ◌&&◌, List, [], ◌∷◌, leb, every, member,
  take, length, length-append, arith, Option-cases, inl, inr,
}
use voteit.Text.{Text, str, text_in}
use voteit.Agenda.{max_order}
use voteit.Agenda.Order.{max_order-none, max_order-bounds}
use voteit.Groups.{suffix, candidate, pick_groupid, max_groupid, new_groupid, new_number}

-- the ids that are tried from the round `i` on
abbrev pub tried : Text → ℕ → ℕ → List Text
unfolding candidate
tried base zero i = []
tried base (suc rounds) i = candidate max_groupid base i ∷ tried base rounds (suc i)

pick_groupid-taken :
    (base : Text) (existing : List Text) (rounds i : ℕ) (groupid : Text)
    → text_in (pick_groupid max_groupid base existing rounds i groupid) existing
      ≡ (text_in groupid existing && every (λ s. text_in s existing) (tried base rounds i))
unfolding pick_groupid tried
pick_groupid-taken base existing zero i groupid = ground arith
pick_groupid-taken base existing (suc rounds) i groupid =
    ground (arith, pick_groupid-taken base existing rounds (suc i) (candidate max_groupid base i))

pub length-take : (n : ℕ) (s : Text) → length (take n s) ≤ n
length-take zero s = omega arith
length-take (suc n) [] = omega arith
length-take (suc n) (c ∷ s) = omega (arith, length-take n s)

length-suffix : (i : ℕ) → i ≤ 9 → length (suffix i) ≡ 2
unfolding suffix str
length-suffix i h = ground arith

length-candidate :
    (base : Text) (i : ℕ) → i ≤ 9 → length (candidate max_groupid base i) ≤ max_groupid
unfolding candidate
length-candidate base i h = omega (
  arith,
  length-append (take (max_groupid - length (suffix i)) base) (suffix i),
  length-take (max_groupid - length (suffix i)) base,
  length-suffix i h,
)

length-pick_groupid :
    (base : Text) (existing : List Text) (rounds i : ℕ) (groupid : Text)
    → rounds + i ≤ 10
    → length groupid ≤ max_groupid
    → length (pick_groupid max_groupid base existing rounds i groupid) ≤ max_groupid
unfolding pick_groupid
length-pick_groupid base existing zero i groupid h k = k
length-pick_groupid base existing (suc rounds) i groupid h k = ground (
  arith,
  length-candidate base i (omega arith),
  length-pick_groupid base existing rounds (suc i) (candidate max_groupid base i),
)

-- A new id of a group fits its column. It is one that another group of the meeting has only if the
-- slug and all five ids with a number are taken.
pub new_groupid_lem :
    (slug : Text) (existing : List Text)
    → (length (new_groupid slug existing) ≤ max_groupid)
      × (text_in (new_groupid slug existing) existing
          ≡ every
              (λ s. text_in s existing)
              (take max_groupid slug ∷ tried (take max_groupid slug) 5 1))
unfolding new_groupid
new_groupid_lem slug existing =
    let base = take max_groupid slug in
    (
      length-pick_groupid base existing 5 1 base (omega arith) (length-take max_groupid slug),
      pick_groupid-taken base existing 5 1 base,
    )

number_above : (ns : List ℕ) (k : ℕ) → member k ns ≡ true → k < new_number ns
unfolding new_number
number_above ns k h = elim (Option-cases (max_order ns)) [
  | inl e ↦ absurd (ground (arith, max_order-none ns k))
  | inr (m, e) ↦ ground (arith, max_order-bounds ns k m)
]

-- A participant who is numbered automatically gets a number above all numbers of the system, so
-- that the constraint on numbers holds; the first one gets 1.
pub new_number_lem :
    (ns : List ℕ) (n : ℕ)
    → (new_number [] ≡ 1)
      × (member (new_number ns) ns ≡ false)
      × ((leb (new_number ns) n && member n ns) ≡ false)
unfolding new_number
new_number_lem ns n =
    (refl, ground (arith, number_above ns (new_number ns)), ground (arith, number_above ns n))
