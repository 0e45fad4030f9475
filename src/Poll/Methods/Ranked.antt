-- ===== src/Poll/Methods/Ranked.antt =====
-- Scottish STV, IRV and repeated IRV polls: voteit/poll/app/polls/scottish_stv.py and irv.py. A ballot is
-- stored as a text. The library stvpoll is a parameter: what it makes of ballots with their counts, or
-- none for an exception of it.
pub mod Ballots
use voteit.Prelude.{
  ℕ, ◌+◌, Bool, true, false, ◌&&◌, ◌||◌, not, Option, none, some, List, [], ◌∷◌, ltb, leb, ◌==◌,
  if◌then◌else◌, member, select, length, Counter,
}
use voteit.Text.{Text, ints, split, parse_numbers, write_numbers}
use voteit.Poll.Ballots.{PollResult}
use voteit.Poll.Methods.{decided}
use voteit.Poll.Methods.Dutt.{unmatched_proposal_pks}

-- The part of `STVPollBase.calculate().as_dict()` that decides about proposals.
pub record StvResult : Type 0 where
  pub winners : List ℕ
  pub candidates : List ℕ
  pub complete : Bool

-- `vote_to_str`
unfoldable pub vote_to_str : List ℕ → Text
unfolding write_numbers
vote_to_str ranking = write_numbers ranking

-- `vote_to_obj`; none is the exception on a text of something else
unfoldable pub vote_to_obj : Text → Option (List ℕ)
unfolding parse_numbers
vote_to_obj text = parse_numbers text

-- the loop of `finalize_stv_result`, which splits the empty text too
abbrev pub add_ballots : Counter Text → Option (List (List ℕ × ℕ))
add_ballots [] = some []
add_ballots ((ballot, count) ∷ counter) = elim (ints (split ballot)) [
  | none ↦ none
  | some ranking ↦ elim (add_ballots counter) [
    | none ↦ none
    | some ballots ↦ some ((ranking, count) ∷ ballots)
  ]
]

-- the extra arguments of the result
abbrev pub outcome : StvResult → PollResult
outcome r =
    if r.complete
    then decided r.winners (select (λ c. not (member c r.winners)) r.candidates)
    else decided r.winners []

unfoldable pub finalize_stv_result :
    (List (List ℕ × ℕ) → Option StvResult) → Counter Text → Option PollResult
finalize_stv_result calculate counter = elim (add_ballots counter) [
  | none ↦ none
  | some ballots ↦ elim (calculate ballots) [ none ↦ none | some r ↦ some (outcome r) ]
]

-- `ScottishSTVSettings.validate_winners` and `RepeatedIRVSettings.validate_winners`
unfoldable pub validate_winners : ℕ → ℕ → Bool
validate_winners min_winners winners = not (ltb winners min_winners)

-- `validate_vote`: none is valid
pub data Error : Type 0 where
  too_few too_many unmatched : Error

abbrev is_nil : List ℕ → Bool
is_nil [] = true
is_nil (_ ∷ _) = false

unfoldable pub validate_ranking : List ℕ → List ℕ → Option Error
unfolding unmatched_proposal_pks
validate_ranking proposals ranking =
    if is_nil (unmatched_proposal_pks proposals [] ranking) then none else some unmatched

-- `RepeatedIRV.validate_vote`; a bound of none is 0, since `no_zeroes` makes none of 0
unfoldable pub validate_repeated : ℕ → ℕ → List ℕ → List ℕ → Option Error
unfolding validate_ranking
validate_repeated min max proposals ranking =
    if not (min == 0) && ltb (length ranking) min
    then some too_few
    else if not (max == 0) && ltb max (length ranking)
    then some too_many
    else validate_ranking proposals ranking

-- `start_check` of the three methods, by the number of proposals
unfoldable pub stv_start_check : ℕ → ℕ → Bool
stv_start_check winners proposals = not (ltb proposals (winners + 1)) && not (ltb winners 1)

unfoldable pub irv_start_check : ℕ → Bool
irv_start_check proposals = not (ltb proposals 3)

unfoldable pub repeated_irv_start_check : ℕ → ℕ → Bool
repeated_irv_start_check min proposals =
    not (ltb proposals 3) && not (not (min == 0) && ltb proposals min)
