-- ===== src/Poll/Policy/Groups/Delegated.antt =====
-- Which groups' votes are given out, themselves or through the group that they delegate to.
use voteit.Prelude.{
  ℕ, ◌+◌, ◌≡◌, refl, Bool, true, false, ◌&&◌, not, Option, none, some, List, [], ◌∷◌, ◌==◌,
  if◌then◌else◌, member, distinct, select, exists, total, arith,
}
use voteit.Poll.Policy.Groups.{Group, is_delegate, delegated_sum, relevant, votes_sum}

abbrev pub is_nil : List ℕ → Bool
is_nil [] = true
is_nil (_ ∷ _) = false

-- the votes of a group that has anybody to vote, as the code has them
abbrev pub cast_by : List Group → Group → ℕ
cast_by gs g = if is_nil g.voters then 0 else votes_sum gs g

-- A group that keeps its votes and has somebody to vote.
abbrev pub is_seated : Group → Bool
is_seated g = elim g.delegate_to [ none ↦ not (is_nil g.voters) | some to ↦ false ]

abbrev seated_at : ℕ → List Group → Bool
seated_at to = exists (λ g. g.pk == to && is_seated g)

-- The votes of a group count: it is seated, or delegates to a group that is.
abbrev pub is_counted : List Group → Group → Bool
is_counted gs x = elim x.delegate_to [
  | none ↦ not (is_nil x.voters)
  | some to ↦ exists (λ g. g.pk == to && is_seated g) gs
]

abbrev pub pks : List Group → List ℕ
pks [] = []
pks (g ∷ gs) = g.pk ∷ pks gs

abbrev own : Group → ℕ
own g = if is_seated g then g.votes else 0

abbrev received : List Group → Group → ℕ
received gs g = if is_seated g then delegated_sum gs g else 0

abbrev given_away : List Group → Group → ℕ
given_away rest x = elim x.delegate_to [
  | none ↦ 0
  | some to ↦ if seated_at to rest then x.votes else 0
]

total-relevant :
    (gs rest : List Group)
    → total (cast_by gs) (select (relevant gs) rest) ≡ total own rest + total (received gs) rest
total-relevant gs [] = omega arith
total-relevant gs (g ∷ rest) = ground (arith, total-relevant gs rest)

absent_seat :
    (to pk : ℕ) (rest : List Group)
    → pk ≡ to
    → member pk (pks rest) ≡ false
    → seated_at to rest ≡ false
absent_seat to pk [] e h = refl
absent_seat to pk (g ∷ rest) e h = ground (arith, absent_seat to pk rest)

given_away-cons :
    (g x : Group) (rest : List Group)
    → member g.pk (pks rest) ≡ false
    → given_away (g ∷ rest) x
      ≡ (if is_seated g && is_delegate g.pk x then x.votes else 0) + given_away rest x
given_away-cons g x rest h = split x.delegate_to
  where
    split :
        (to : Option ℕ)
        → (elim to [ none ↦ 0 | some t ↦ if seated_at t (g ∷ rest) then x.votes else 0 ])
          ≡ (if is_seated g && (elim to [ none ↦ false | some t ↦ t == g.pk ]) then x.votes else 0)
            + (elim to [ none ↦ 0 | some t ↦ if seated_at t rest then x.votes else 0 ])
    split none = ground arith
    split (some t) = ground (arith, absent_seat t g.pk rest)

total-given_away :
    (g : Group) (rest xs : List Group)
    → member g.pk (pks rest) ≡ false
    → total (given_away (g ∷ rest)) xs
      ≡ (if is_seated g then total (λ x. x.votes) (select (is_delegate g.pk) xs) else 0)
        + total (given_away rest) xs
total-given_away g rest [] h = ground arith
total-given_away g rest (x ∷ xs) h =
    ground (arith, given_away-cons g x rest h, total-given_away g rest xs h)

nobody_left : (xs : List Group) → total (given_away []) xs ≡ 0
nobody_left [] = refl
nobody_left (x ∷ xs) = ground (arith, nobody_left xs)

total-received :
    (gs rest : List Group)
    → distinct (pks rest) ≡ true
    → total (received gs) rest ≡ total (given_away rest) gs
total-received gs [] d = ground (arith, nobody_left gs)
total-received gs (g ∷ rest) d = ground (arith, total-given_away g rest gs, total-received gs rest)

total-counted :
    (gs xs : List Group)
    → total own xs + total (given_away gs) xs ≡ total (λ x. x.votes) (select (is_counted gs) xs)
total-counted gs [] = refl
total-counted gs (x ∷ xs) = omega (arith, counted x, total-counted gs xs, selected x)
  where
    selected :
        (x : Group)
        → total (λ y. y.votes) (select (is_counted gs) (x ∷ xs))
          ≡ (if is_counted gs x then x.votes else 0)
            + total (λ y. y.votes) (select (is_counted gs) xs)
    selected x = ground arith

    counted : (x : Group) → own x + given_away gs x ≡ (if is_counted gs x then x.votes else 0)
    counted x = ground arith

-- What the code hands out for the groups that it picks is the votes of the groups that count.
pub total-cast_by :
    (gs : List Group)
    → distinct (pks gs) ≡ true
    → total (cast_by gs) (select (relevant gs) gs)
      ≡ total (λ x. x.votes) (select (is_counted gs) gs)
total-cast_by gs d =
    omega (arith, total-relevant gs gs, total-received gs gs d, total-counted gs gs)
