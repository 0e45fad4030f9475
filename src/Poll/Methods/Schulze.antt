-- ===== src/Poll/Methods/Schulze.antt =====
-- Schulze and repeated Schulze polls: voteit/poll/app/polls/schulze.py. The library that ranks the
-- candidates is a parameter.
pub mod Rounds
use voteit.Prelude.{
  ℕ, zero, suc, ◌+◌, ◌≡◌, Bool, true, false, ◌&&◌, ◌||◌, not, Option, none, some, List, [], ◌∷◌,
  ◌==◌, ltb, if◌then◌else◌, member, select, exists, length, map, Counter, keys, distinct, is_some,
}
use voteit.Poll.Ballots.{PollResult}
use voteit.Poll.Methods.{decided}

-- A ballot is a dict of stars for candidates, with the weight of the votes for it.
abbrev pub Ballots : Type 0
Ballots = List (ℕ × List (ℕ × ℕ))

abbrev pub on_ballots : ℕ → Ballots → Bool
on_ballots k [] = false
on_ballots k ((n, ballot) ∷ bs) = member k (keys ballot) || on_ballots k bs

pub record Round : Type 0 where
  pub candidates : List ℕ
  pub winner : ℕ

-- `SchulzeMethod(…).as_dict()`: its candidates are the set of those on the ballots, and the winner is
-- one of them; none is an exception.
pub record SchulzeMethod : Type 0 where
  pub rank : Ballots → Option Round
  pub candidates_on_ballots :
      (bs : Ballots) (r : Round) (k : ℕ)
      → rank bs ≡ some r
      → member k r.candidates ≡ on_ballots k bs
  pub candidates_distinct :
      (bs : Ballots) (r : Round) → rank bs ≡ some r → distinct r.candidates ≡ true
  pub winner_candidate :
      (bs : Ballots) (r : Round) → rank bs ≡ some r → member r.winner r.candidates ≡ true

-- `dict(ballot.ranking)`
abbrev put : ℕ → ℕ → List (ℕ × ℕ) → List (ℕ × ℕ)
put k v [] = (k, v) ∷ []
put k v ((j, w) ∷ d) = let rest = put k v d in if j == k then (k, v) ∷ d else (j, w) ∷ rest

abbrev dict_from : List (ℕ × ℕ) → List (ℕ × ℕ) → List (ℕ × ℕ)
dict_from [] d = d
dict_from ((k, v) ∷ ranking) d = dict_from ranking (put k v d)

unfoldable pub schulze_format : Counter (List (ℕ × ℕ)) → Ballots
schulze_format [] = []
schulze_format ((ranking, count) ∷ counter) = (count, dict_from ranking []) ∷ schulze_format counter

abbrev pub verdict : Round → PollResult
verdict r =
    if r.winner == 0
    then decided [] (select (λ x. not (x == 0)) r.candidates)
    else decided (r.winner ∷ []) (select (λ x. not (x == 0) && not (x == r.winner)) r.candidates)

-- `item["ballot"].pop(winner, None)` of every ballot
abbrev pub without : ℕ → List (ℕ × ℕ) → List (ℕ × ℕ)
without w [] = []
without w ((k, v) ∷ d) = let rest = without w d in if k == w then rest else (k, v) ∷ rest

abbrev pub eliminate : ℕ → Ballots → Ballots
eliminate w [] = []
eliminate w ((n, ballot) ∷ bs) = (n, without w ballot) ∷ eliminate w bs

abbrev pub winners : List Round → List ℕ
winners [] = []
winners (r ∷ rs) = r.winner ∷ winners rs

-- the proposals among the winners
abbrev pub elected : List Round → List ℕ
elected rs = select (λ x. not (x == 0)) (winners rs)

-- Rounds that only sort the proposals decide nothing.
abbrev pub repeated_verdict : Option ℕ → List Round → Option PollResult
repeated_verdict seats [] = none
repeated_verdict none (r ∷ rs) = some (decided [] [])
repeated_verdict (some n) (r ∷ rs) = some (
    decided (elected (r ∷ rs))
      (select (λ x. not (member x (elected (r ∷ rs))) && not (x == 0)) r.candidates))

abbrev pub rounds_to_do : Option ℕ → ℕ → ℕ
rounds_to_do none proposals = proposals
rounds_to_do (some n) proposals = n

module _ (method : SchulzeMethod) where
  unfoldable pub schulze_result : Counter (List (ℕ × ℕ)) → Option PollResult
  unfolding schulze_format
  schulze_result counter = elim (method.rank (schulze_format counter)) [
    | none ↦ none
    | some r ↦ some (verdict r)
  ]

  -- the loop over the rounds, with its `break`
  abbrev pub play : Bool → ℕ → Ballots → Option (List Round)
  play deny zero bs = some []
  play deny (suc n) bs = elim (method.rank bs) [
    | none ↦ none
    | some r ↦ elim (deny && r.winner == 0) [
      | true ↦ some (r ∷ [])
      | false ↦ elim (play deny n (eliminate r.winner bs)) [ none ↦ none | some rs ↦ some (r ∷ rs) ]
    ]
  ]

  unfoldable pub repeated_result : Bool → Option ℕ → ℕ → Counter (List (ℕ × ℕ)) → Option PollResult
  repeated_result deny seats proposals counter =
      elim (play deny (rounds_to_do seats proposals) (schulze_format counter)) [
        | none ↦ none
        | some rs ↦ repeated_verdict seats rs
      ]

-- `start_check` of both methods, by the number of proposals
unfoldable pub schulze_start_check : Bool → ℕ → Bool
schulze_start_check deny proposals = not (ltb proposals (if deny then 2 else 3))

abbrev enough : Option ℕ → Bool → ℕ → Bool
enough none deny proposals = true
enough (some n) deny proposals = n == 0 || not (ltb proposals (if deny then n else n + 1))

unfoldable pub repeated_start_check : Bool → Option ℕ → ℕ → Bool
unfolding schulze_start_check
repeated_start_check deny seats proposals =
    schulze_start_check deny proposals && enough seats deny proposals
