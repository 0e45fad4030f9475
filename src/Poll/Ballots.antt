-- ===== src/Poll/Ballots.antt =====
-- Counting the ballots of a poll: `cleanup_removed_from_er_votes`, `finalize_vote_data` and
-- `calculate_result` of `Poll`, voteit/poll/models.py. The JSON text of the counter is the counter;
-- its SHA-512 is a parameter, and so is the poll method.
pub mod Conservation
use voteit.Prelude.{
  ℕ, ◌+◌, Bool, true, false, ◌&&◌, ◌||◌, not, Option, none, some, List, [], ◌∷◌, ◌==◌,
  if◌then◌else◌, get, nat_eq, values_sum, keys, member, is_some, select, exists, Counter, increment,
  Eq, ◌⊎◌, inl, inr,
}
use voteit.Poll.Register.{Register, Vote}

-- What every result holds (`PollResult`); a method's own figures are left to the method.
pub record PollResult : Type 0 where
  pub approved : List ℕ
  pub denied : List ℕ
  pub vote_count : Option ℕ

-- The exceptions on the way; `method_failed` is any exception of the poll method.
pub data Error : Type 0 where
  already_finalized register_missing method_failed : Error

-- The columns of a poll that counting reads and writes, and its votes by primary key.
pub record Count (B : Type 0) : Type 0 where
  pub electoral_register : Option Register
  pub votes : List (Vote B)
  pub ballot_data : Option (Counter (Option B))
  pub ballot_checksum : Option ℕ
  pub abstains : ℕ
  pub result_data : Option PollResult

module _ {B : Type 0} where
  -- `weights.get(v.user_id, 1)`
  abbrev pub weight : Register → Vote B → ℕ
  weight er v = elim (get v.user_id er.voter_data) [ none ↦ 1 | some w ↦ w ]

  -- the votes of users who are in the register
  abbrev pub in_register : Register → List (Vote B) → List (Vote B)
  in_register er = select (λ v. member v.user_id (keys er.voter_data))

  unfoldable pub cleanup_removed_from_er_votes : Count B → Count B
  cleanup_removed_from_er_votes c = elim c.electoral_register [
    | none ↦ c
    | some er ↦ record c { votes = in_register er c.votes }
  ]

module _ {B : Type 0} ⦃e : Eq (Option B)⦄ where
  -- the loop over the votes, with its two variables
  abbrev pub count_votes :
      Register → List (Vote B) → ℕ → Counter (Option B) → ℕ × Counter (Option B)
  count_votes er [] abstains counter = (abstains, counter)
  count_votes er (v ∷ vs) abstains counter =
      count_votes er vs (if v.abstain then abstains + weight er v else abstains)
        (if v.abstain then counter else increment v.vote_data (weight er v) counter)

  module _ (sha512 : Counter (Option B) → ℕ) where
    abbrev finalize :
        Option (Counter (Option B))
        → Option Register
        → Count B
        → Count B × (Counter (Option B) ⊎ Error)
    finalize (some _) _ c = (c, inr already_finalized)
    finalize none none c = (c, inr register_missing)
    finalize none (some er) c =
        let (abstains, counter) = count_votes er c.votes 0 [] in
        (
          record c {
            abstains = abstains;
            ballot_data = some counter;
            ballot_checksum = some (sha512 counter);
          },
          inl counter,
        )

    -- Both exceptions come before the first write.
    unfoldable pub finalize_vote_data : Count B → Count B × (Counter (Option B) ⊎ Error)
    finalize_vote_data c = finalize c.ballot_data c.electoral_register c

    module _ (method : Counter (Option B) → Option PollResult) where
      abbrev store : Counter (Option B) → Option PollResult → Count B → Count B × Option Error
      store counter none c = (c, some method_failed)
      store counter (some r) c = (
        record c { result_data = some (record r { vote_count = some (values_sum counter) }) },
        none,
      )

      abbrev after_finalize : Count B × (Counter (Option B) ⊎ Error) → Count B × Option Error
      after_finalize (c, inl counter) = store counter (method counter) c
      after_finalize (c, inr error) = (c, some error)

      -- The row that an exception leaves comes back beside it.
      unfoldable pub calculate_result : Count B → Count B × Option Error
      unfolding finalize_vote_data
      calculate_result c = elim c.result_data [
        | some _ ↦ (c, none)
        | none ↦ after_finalize (finalize_vote_data c)
      ]
