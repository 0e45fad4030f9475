-- ===== src/Poll/Policy/Groups/Shares.antt =====
-- The votes of groups are all handed out, and equally.
use voteit.Prelude.{
  ℕ, zero, suc, ◌+◌, ◌*◌, ◌/◌, ◌%◌, ◌≡◌, ◌≤◌, refl, true, false, List, [], ◌∷◌, ◌==◌, if◌then◌else◌,
  nat_eq, member, distinct, select, length, Counter, increment, values_sum, total, count_of, arith,
  values_sum-increment, count_of-increment, Bool-cases, inl, inr,
}
use voteit.Poll.Policy.Groups.Delegated.{is_nil, cast_by, is_counted, pks, total-cast_by}
use voteit.Poll.Policy.Groups.{
  Group, relevant, votes_sum, give, give_rest, Random, shared_out, share_group, share_all,
  calc_group_votes_equal,
}

values_sum-give :
    (full : ℕ) (pks : List ℕ) (c : Counter ℕ)
    → values_sum (give full pks c) ≡ values_sum c + length pks * full
values_sum-give full [] c = omega arith
values_sum-give full (pk ∷ pks) c =
    omega (arith, values_sum-increment pk full c, values_sum-give full pks (increment pk full c))

values_sum-give_rest :
    (rest : ℕ) (pks : List ℕ) (c : Counter ℕ)
    → rest ≤ length pks
    → values_sum (give_rest rest pks c) ≡ values_sum c + rest
values_sum-give_rest zero pks c low = omega arith
values_sum-give_rest (suc rest) [] c low = absurd (omega arith)
values_sum-give_rest (suc rest) (pk ∷ pks) c low = omega (
  arith,
  values_sum-increment pk 1 c,
  values_sum-give_rest rest pks (increment pk 1 c) (omega arith),
)

divided : (votes n : ℕ) → votes % suc n ≤ suc n × votes ≡ suc n * (votes / suc n) + votes % suc n
divided votes n = (omega arith, omega arith)

count_of-give_other :
    (full : ℕ) (k : ℕ) (pks : List ℕ) (c : Counter ℕ)
    → member k pks ≡ false
    → count_of k (give full pks c) ≡ count_of k c
count_of-give_other full k [] c out = refl
count_of-give_other full k (pk ∷ pks) c out =
    ground
      (arith, count_of-increment pk k full c, count_of-give_other full k pks (increment pk full c))

count_of-give :
    (full : ℕ) (k : ℕ) (pks : List ℕ) (c : Counter ℕ)
    → distinct pks ≡ true
    → member k pks ≡ true
    → count_of k (give full pks c) ≡ count_of k c + full
count_of-give full k [] c d h = absurd (ground arith)
count_of-give full k (pk ∷ pks) c d h = elim (Bool-cases (pk == k)) [
  | inl same ↦
      ground (
        arith,
        count_of-increment pk k full c,
        count_of-give_other full k pks (increment pk full c),
      )
  | inr other ↦
      ground (arith, count_of-increment pk k full c, count_of-give full k pks (increment pk full c))
]

count_of-give_rest_other :
    (rest k : ℕ) (pks : List ℕ) (c : Counter ℕ)
    → member k pks ≡ false
    → count_of k (give_rest rest pks c) ≡ count_of k c
count_of-give_rest_other zero k pks c out = refl
count_of-give_rest_other (suc rest) k [] c out = refl
count_of-give_rest_other (suc rest) k (pk ∷ pks) c out =
    ground
      (arith, count_of-increment pk k 1 c, count_of-give_rest_other rest k pks (increment pk 1 c))

count_of-give_rest :
    (rest k : ℕ) (pks : List ℕ) (c : Counter ℕ)
    → distinct pks ≡ true
    → (count_of k c ≤ count_of k (give_rest rest pks c))
      × (count_of k (give_rest rest pks c) ≤ count_of k c + 1)
count_of-give_rest zero k pks c d = (omega arith, omega arith)
count_of-give_rest (suc rest) k [] c d = (omega arith, omega arith)
count_of-give_rest (suc rest) k (pk ∷ pks) c d = elim (Bool-cases (pk == k)) [
  | inl same ↦
      ground
        (arith, count_of-increment pk k 1 c, count_of-give_rest_other rest k pks (increment pk 1 c))
  | inr other ↦
      ground (arith, count_of-increment pk k 1 c, count_of-give_rest rest k pks (increment pk 1 c))
]

module _ {S : Type 0} (rnd : Random S) where
  values_sum-shared_out :
      (full rest : ℕ) (pks : List ℕ) (s : S) (c : Counter ℕ)
      → rest ≤ length pks
      → values_sum (shared_out rnd full rest pks s c).1 ≡ values_sum c + (length pks * full + rest)
  values_sum-shared_out full zero pks s c low = omega (arith, values_sum-give full pks c)
  values_sum-shared_out full (suc rest) pks s c low = omega (
    arith,
    values_sum-give full pks c,
    rnd.shuffle_length s pks,
    values_sum-give_rest (suc rest) (rnd.shuffle s pks).1 (give full pks c)
        (omega (arith, rnd.shuffle_length s pks)),
  )

  values_sum-share_group :
      (votes : ℕ) (pks : List ℕ) (s : S) (c : Counter ℕ)
      → values_sum (share_group rnd votes pks s c).1
        ≡ values_sum c + (if is_nil pks then 0 else votes)
  values_sum-share_group votes [] s c = omega arith
  values_sum-share_group votes (pk ∷ pks) s c =
      let (low, whole) = divided votes (length pks) in
      omega (
        arith,
        whole,
        values_sum-shared_out (votes / length (pk ∷ pks)) (votes % length (pk ∷ pks)) (pk ∷ pks) s c
            low,
      )

  values_sum-share_all :
      (gs rest : List Group) (s : S) (c : Counter ℕ)
      → values_sum (share_all rnd gs rest s c).1 ≡ values_sum c + total (cast_by gs) rest
  values_sum-share_all gs [] s c = omega arith
  values_sum-share_all gs (g ∷ rest) s c =
      let (s', c') = share_group rnd (votes_sum gs g) g.voters s c in
      omega (
        arith,
        values_sum-share_group (votes_sum gs g) g.voters s c,
        values_sum-share_all gs rest s' c',
      )

  -- Where no key occurs twice: the votes handed out add up to the votes of the groups that keep theirs and
  -- have somebody to vote, and of the groups that delegate to such a group; no vote is lost and none made
  -- up.
  pub calc_group_votes_equal_lem :
      (gs : List Group) (s : S)
      → distinct (pks gs) ≡ true
      → values_sum (calc_group_votes_equal rnd gs s)
        ≡ total (λ g. g.votes) (select (is_counted gs) gs)
  unfolding calc_group_votes_equal
  calc_group_votes_equal_lem gs s d =
      omega (arith, values_sum-share_all gs (select (relevant gs) gs) s [], total-cast_by gs d)

  shared_out-share :
      (full rest k : ℕ) (pks : List ℕ) (s : S) (c : Counter ℕ)
      → distinct pks ≡ true
      → member k pks ≡ true
      → (count_of k c + full ≤ count_of k (shared_out rnd full rest pks s c).1)
        × (count_of k (shared_out rnd full rest pks s c).1 ≤ count_of k c + full + 1)
  shared_out-share full zero k pks s c d h =
      let e = count_of-give full k pks c d h in (omega (arith, e), omega (arith, e))
  shared_out-share full (suc rest) k pks s c d h =
      let e = count_of-give full k pks c d h in
      let (low, high) =
        count_of-give_rest (suc rest) k (rnd.shuffle s pks).1 (give full pks c)
          (rnd.shuffle_distinct s pks d) in
      (omega (arith, e, low), omega (arith, e, high))

  -- Sharing the votes of a group raises the weight of each of its voters by the votes divided by the
  -- number of voters, or by one more, and leaves everybody else's alone.
  pub share_group_lem :
      (votes k other : ℕ) (pk : ℕ) (pks : List ℕ) (s : S) (c : Counter ℕ)
      → distinct (pk ∷ pks) ≡ true
      → member k (pk ∷ pks) ≡ true
      → member other (pk ∷ pks) ≡ false
      → (count_of k c + votes / suc (length pks)
          ≤ count_of k (share_group rnd votes (pk ∷ pks) s c).1)
        × (count_of k (share_group rnd votes (pk ∷ pks) s c).1
            ≤ count_of k c + votes / suc (length pks) + 1)
        × (count_of other (share_group rnd votes (pk ∷ pks) s c).1 ≡ count_of other c)
  share_group_lem votes k other pk pks s c d h out =
      let full = votes / length (pk ∷ pks) in
      let rest = votes % length (pk ∷ pks) in
      let (low, high) = shared_out-share full rest k (pk ∷ pks) s c d h in
      (low, high, shared_out-other full rest (pk ∷ pks) out)
    where
      shared_out-other :
          (full rest : ℕ) (us : List ℕ)
          → member other us ≡ false
          → count_of other (shared_out rnd full rest us s c).1 ≡ count_of other c
      shared_out-other full zero us out' = count_of-give_other full other us c out'
      shared_out-other full (suc rest) us out' = omega (
        arith,
        count_of-give_other full other us c out',
        count_of-give_rest_other (suc rest) other (rnd.shuffle s us).1 (give full us c)
            (cc (rnd.shuffle_member s us other, out')),
      )
