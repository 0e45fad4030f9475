-- ===== src/Poll/Methods.antt =====
-- Poll methods: voteit/poll/app/polls, with `unmatched_proposal_pks` of voteit/poll/abcs.py. A ballot
-- is the data that its text holds, and the counter's keys are ballots. A method returns none where the
-- code raises.
pub mod YesNo
pub mod Majority
pub mod Schulze
pub mod Dutt
pub mod Ranked
use voteit.Prelude.{
  ◌≡◌, ℕ, ◌+◌, Bool, true, false, ◌&&◌, ◌||◌, not, Option, none, some, List, [], ◌∷◌, ◌++◌, ◌==◌,
  ltb, if◌then◌else◌, member, select, length, map, Counter, count_of, Eq, nat_eq,
}
use voteit.Poll.Ballots.{PollResult}

abbrev pub decided : List ℕ → List ℕ → PollResult
decided approved denied = record { approved = approved; denied = denied; vote_count = none }

-- simple.py. `proposals` are the primary keys of the poll's proposals.
pub data Choice : Type 0 where
  yes no : Choice

abbrev pub choice_beq : Choice → Choice → Bool
choice_beq yes yes = true
choice_beq no no = true
choice_beq _ _ = false

abbrev pub simple_verdict : ℕ → ℕ → ℕ → PollResult
simple_verdict pk for against =
    if ltb against for
    then decided (pk ∷ []) []
    else if ltb for against
    then decided [] (pk ∷ [])
    else decided [] []

module _ ⦃e : Eq Choice⦄ where
  unfoldable pub simple_result : List ℕ → Counter Choice → Option PollResult
  simple_result (pk ∷ []) counter =
      some (simple_verdict pk (count_of yes counter) (count_of no counter))
  simple_result _ counter = none

unfoldable pub simple_start_check : List ℕ → Bool
simple_start_check proposals = length proposals == 1

-- combined_simple.py
pub record CombinedVote : Type 0 where
  pub yes : List ℕ
  pub no : List ℕ

pub record Votes : Type 0 where
  pub yes : ℕ
  pub no : ℕ
  pub abstain : ℕ

-- `_count_votes`
unfoldable pub count_votes : ℕ → Counter CombinedVote → Votes
count_votes pk [] = record { yes = 0; no = 0; abstain = 0 }
count_votes pk ((vote, ct) ∷ votes) =
    let rest = count_votes pk votes in
    if member pk vote.yes
    then record rest { yes = rest.yes + ct }
    else if member pk vote.no
    then record rest { no = rest.no + ct }
    else record rest { abstain = rest.abstain + ct }

unfoldable pub combined_result : List ℕ → Counter CombinedVote → PollResult
unfolding count_votes
combined_result proposals votes =
    decided (select (λ pk. ltb (count_votes pk votes).no (count_votes pk votes).yes) proposals)
      (select (λ pk. ltb (count_votes pk votes).yes (count_votes pk votes).no) proposals)

unfoldable pub combined_start_check : List ℕ → Bool
combined_start_check proposals = not (length proposals == 0)

-- majority.py: the results, as proposals with votes, by ascending votes
abbrev pub insert : ℕ × ℕ → List (ℕ × ℕ) → List (ℕ × ℕ)
insert (a, m) [] = (a, m) ∷ []
insert (a, m) ((b, n) ∷ rs) =
    let rest = insert (a, m) rs in if ltb n m then (b, n) ∷ rest else (a, m) ∷ (b, n) ∷ rs

abbrev pub sort_results : List (ℕ × ℕ) → List (ℕ × ℕ)
sort_results [] = []
sort_results (r ∷ rs) = insert r (sort_results rs)

-- `set.pop` of a set with the element `x`, which takes an arbitrary element
pub record SetPop : Type 0 where
  pub pop : ℕ → List ℕ → ℕ
  pub pop_member : (x : ℕ) (xs : List ℕ) → member (pop x xs) (x ∷ xs) ≡ true

abbrev popped : SetPop → ℕ → List ℕ → Option PollResult
popped set winner [] = none
popped set winner (x ∷ xs) = some (decided (winner ∷ []) (set.pop x xs ∷ []))

abbrev lone : SetPop → List ℕ → ℕ → Option PollResult
lone set proposals winner =
    if member winner proposals
    then popped set winner (select (λ pk. not (pk == winner)) proposals)
    else none

abbrev pub majority_of : SetPop → List ℕ → List (ℕ × ℕ) → Option PollResult
majority_of set proposals [] = some (decided [] [])
majority_of set proposals ((a, m) ∷ []) =
    if m == 0 then some (decided [] []) else lone set proposals a
majority_of set proposals ((a, m) ∷ (b, n) ∷ []) =
    some (if ltb m n then decided (b ∷ []) (a ∷ []) else decided [] [])
majority_of set proposals (_ ∷ _ ∷ _ ∷ _) = none

unfoldable pub majority_result : SetPop → List ℕ → Counter ℕ → Option PollResult
majority_result set proposals counter = majority_of set proposals (sort_results counter)

unfoldable pub majority_start_check : List ℕ → Bool
majority_start_check proposals = not (ltb (length proposals) 2)
