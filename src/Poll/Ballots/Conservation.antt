-- ===== src/Poll/Ballots/Conservation.antt =====
-- No vote weight is lost or made up in counting.
use voteit.Prelude.{
  ℕ, ◌+◌, ◌≡◌, Option, none, some, List, [], ◌∷◌, if◌then◌else◌, nat_eq, values_sum, Counter,
  increment, count_of, total, Eq, inl, arith, values_sum-increment, count_of-increment,
}
use voteit.Poll.Register.{Register, Vote}
use voteit.Poll.Ballots.{
  PollResult, Error, Count, weight, count_votes, finalize_vote_data, calculate_result,
  method_failed, already_finalized,
}

module _ {B : Type 0} where
  -- the weight of an abstention, of a vote, and of a vote for one ballot
  abbrev pub abstained : Register → Vote B → ℕ
  abstained er v = if v.abstain then weight er v else 0

  abbrev pub voted : Register → Vote B → ℕ
  voted er v = if v.abstain then 0 else weight er v

  abbrev pub voted_for : ⦃e : Eq (Option B)⦄ → Register → Option B → Vote B → ℕ
  voted_for ⦃e⦄ er b v = if v.abstain then 0 else if e.beq v.vote_data b then weight er v else 0

abbrev pub again : Option Error → Option Error
again none = none
again (some method_failed) = some already_finalized
again (some error) = some error

module _ {B : Type 0} ⦃e : Eq (Option B)⦄ where
  count_votes-abstains :
      (er : Register) (vs : List (Vote B)) (n : ℕ) (c : Counter (Option B))
      → (count_votes er vs n c).0 ≡ n + total (abstained er) vs
  count_votes-abstains er [] n c = omega arith
  count_votes-abstains er (v ∷ vs) n c = ground (
    arith,
    count_votes-abstains er vs (if v.abstain then n + weight er v else n)
        (if v.abstain then c else increment v.vote_data (weight er v) c),
  )

  count_votes-values :
      (er : Register) (vs : List (Vote B)) (n : ℕ) (c : Counter (Option B))
      → values_sum (count_votes er vs n c).1 ≡ values_sum c + total (voted er) vs
  count_votes-values er [] n c = omega arith
  count_votes-values er (v ∷ vs) n c = ground (
    arith,
    values_sum-increment v.vote_data (weight er v) c,
    count_votes-values er vs (if v.abstain then n + weight er v else n)
        (if v.abstain then c else increment v.vote_data (weight er v) c),
  )

  count_votes-count :
      (b : Option B) (er : Register) (vs : List (Vote B)) (n : ℕ) (c : Counter (Option B))
      → count_of b (count_votes er vs n c).1 ≡ count_of b c + total (voted_for er b) vs
  count_votes-count b er [] n c = omega arith
  count_votes-count b er (v ∷ vs) n c = ground (
    arith,
    count_of-increment v.vote_data b (weight er v) c,
    count_votes-count b er vs (if v.abstain then n + weight er v else n)
        (if v.abstain then c else increment v.vote_data (weight er v) c),
  )

  total-split :
      (er : Register) (vs : List (Vote B))
      → total (weight er) vs ≡ total (abstained er) vs + total (voted er) vs
  total-split er [] = omega arith
  total-split er (v ∷ vs) = ground (arith, total-split er vs)

  module _ (sha512 : Counter (Option B) → ℕ) where
    -- A poll with a register that was not finalized is finalized: the ballot package holds, for each
    -- ballot, the weight of the votes for it; the abstentions hold the weight of those who
    -- abstained; the two add up to the weight of all votes; and the checksum is that of the package. The
    -- weight of a vote is that of its user in the register, and 1 if the register does not have him: votes
    -- outside of the register are not removed here.
    pub finalize_vote_data_lem :
        (c : Count B) (er : Register) (ballot : Option B)
        → c.ballot_data ≡ none
        → c.electoral_register ≡ some er
        → (counter : Counter (Option B)) × ((finalize_vote_data sha512 c).1 ≡ inl counter)
          × ((finalize_vote_data sha512 c).0.ballot_data ≡ some counter)
          × ((finalize_vote_data sha512 c).0.ballot_checksum ≡ some (sha512 counter))
          × (count_of ballot counter ≡ total (voted_for er ballot) c.votes)
          × ((finalize_vote_data sha512 c).0.abstains ≡ total (abstained er) c.votes)
          × ((finalize_vote_data sha512 c).0.abstains + values_sum counter
              ≡ total (weight er) c.votes)
    unfolding finalize_vote_data
    finalize_vote_data_lem c er ballot fresh has_er =
        let counter : Counter (Option B) = (count_votes er c.votes 0 []).1 in
        (
          counter,
          ground arith,
          ground arith,
          ground arith,
          ground (arith, count_votes-count ballot er c.votes 0 []),
          ground (arith, count_votes-abstains er c.votes 0 []),
          ground (
            arith,
            count_votes-abstains er c.votes 0 [],
            count_votes-values er c.votes 0 [],
            total-split er c.votes,
          ),
        )

    module _ (method : Counter (Option B) → Option PollResult) where
      -- Ballots are finalized once. After a calculation that stored a result a second one changes
      -- nothing; after one that failed in the method it is refused as already finalized; with no
      -- register both are refused for that.
      pub calculate_result_twice :
          (c : Count B)
          → c.ballot_data ≡ none
          → calculate_result sha512 method (calculate_result sha512 method c).0
            ≡ ((calculate_result sha512 method c).0, again (calculate_result sha512 method c).1)
      unfolding calculate_result
      calculate_result_twice c fresh = ground arith
