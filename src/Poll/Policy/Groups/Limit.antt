-- ===== src/Poll/Policy/Groups/Limit.antt =====
-- The limit on the votes of members (`GroupVotesBeforePoll.get_voters`).
use voteit.Prelude.{
  ℕ, ◌+◌, ◌≡◌, ◌≤◌, some, List, [], ◌∷◌, select, ltb, Counter, increment, values_sum, total, arith,
  values_sum-increment, nat_eq,
}
use voteit.Poll.Policy.Groups.{GroupMembership, counts, tally, group_voters}

values_sum-tally :
    (ms : List GroupMembership) (c : Counter ℕ)
    → values_sum (tally ms c) ≡ values_sum c + total (λ m. m.votes) ms
values_sum-tally [] c = omega arith
values_sum-tally (m ∷ ms) c =
    omega (
      arith,
      values_sum-increment m.user m.votes c,
      values_sum-tally ms (increment m.user m.votes c),
    )

total-select : (ns : List ℕ) → total (λ n. n) (select (ltb 0) ns) ≤ total (λ n. n) ns
total-select [] = omega arith
total-select (n ∷ ns) = ground (arith, total-select ns)

-- The voters of a meeting with votes on its groups never outweigh the groups: either the policy
-- refuses, or the weights add up to at most the votes of the groups, and are those of the memberships
-- that count.
pub group_voters_lem :
    (group_votes : List ℕ) (ms : List GroupMembership) (voters : Counter ℕ)
    → group_voters group_votes ms ≡ some voters
    → (values_sum voters ≤ total (λ n. n) group_votes)
      × (values_sum voters ≡ total (λ m. m.votes) (select counts ms))
unfolding group_voters
group_voters_lem group_votes ms voters h =
    ground (arith, values_sum-tally (select counts ms) [], total-select group_votes)
