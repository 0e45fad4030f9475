-- ===== src/Poll/Methods/Majority.antt =====
-- The result of a majority poll about two proposals (majority.py).
use voteit.Prelude.{
  ℕ, ◌≡◌, ◌≢◌, ◌<◌, suc, refl, true, ◌||◌, none, some, List, [], ◌∷◌, ◌==◌, ltb, if◌then◌else◌,
  length, Counter, count_of, nat_eq, keys, distinct, every, arith,
}
use voteit.Poll.Methods.{SetPop, decided, majority_of, majority_result, insert, sort_results}

-- With two proposals and ballots for these two only, one of them is approved and the other denied if
-- and only if the first has more votes than the other.
pub majority_result_lem :
    (set : SetPop) (a b : ℕ) (counter : Counter ℕ)
    → a ≢ b
    → distinct (keys counter) ≡ true
    → every (λ k. k == a || k == b) (keys counter) ≡ true
    → majority_result set (a ∷ b ∷ []) counter
      ≡ some (
          if ltb (count_of b counter) (count_of a counter)
          then decided (a ∷ []) (b ∷ [])
          else if ltb (count_of a counter) (count_of b counter)
          then decided (b ∷ []) (a ∷ [])
          else decided [] [])
unfolding majority_result
majority_result_lem set a b [] apart d only = ground arith
majority_result_lem set a b ((k, n) ∷ []) apart d only =
    ground (arith, set.pop_member a [], set.pop_member b [])
majority_result_lem set a b ((k, n) ∷ (j, m) ∷ []) apart d only = ground arith
majority_result_lem set a b ((k, n) ∷ (j, m) ∷ (i, l) ∷ rest) apart d only = absurd (ground arith)

length-insert : (r : ℕ × ℕ) (rs : List (ℕ × ℕ)) → length (insert r rs) ≡ suc (length rs)
length-insert (a, m) [] = refl
length-insert (a, m) ((b, n) ∷ rs) = ground (arith, length-insert (a, m) rs)

length-sort : (rs : List (ℕ × ℕ)) → length (sort_results rs) ≡ length rs
length-sort [] = refl
length-sort (r ∷ rs) = ground (arith, length-sort rs, length-insert r (sort_results rs))

-- Ballots for three different proposals give no result, since the calculation raises.
pub majority_three :
    (set : SetPop) (proposals : List ℕ) (counter : Counter ℕ)
    → 2 < length counter
    → majority_result set proposals counter ≡ none
unfolding majority_result
majority_three set proposals [] h = absurd (omega arith)
majority_three set proposals (a ∷ []) h = absurd (omega arith)
majority_three set proposals (a ∷ b ∷ []) h = absurd (omega arith)
majority_three set proposals (a ∷ b ∷ c ∷ rest) h =
    many (sort_results (a ∷ b ∷ c ∷ rest)) (omega (arith, length-sort (a ∷ b ∷ c ∷ rest)))
  where
    many : (rs : List (ℕ × ℕ)) → 2 < length rs → majority_of set proposals rs ≡ none
    many [] l = absurd (omega arith)
    many (x ∷ []) l = absurd (omega arith)
    many (x ∷ y ∷ []) l = absurd (omega arith)
    many (x ∷ y ∷ z ∷ rs) l = refl
