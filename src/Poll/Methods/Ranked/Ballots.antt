-- ===== src/Poll/Methods/Ranked/Ballots.antt =====
-- The texts of ranked votes, from the vote to the result.
use voteit.Prelude.{
  ℕ, ◌≡◌, ◌∙◌, ◌⊎◌, inl, inr, refl, ◌&&◌, ◌||◌, not, Option, is_none, member, member-select, select,
  Bool-cases, Option-cases, Bool, true, false, none, some, List, [], ◌∷◌, if◌then◌else◌, Counter,
  exists, arith,
}
use voteit.Text.{Text, int, write_numbers}
use voteit.Text.RoundTrip.{parse-write_numbers, ints-split_written}
use voteit.Poll.Ballots.{PollResult}
use voteit.Poll.Methods.Ranked.{
  StvResult, vote_to_str, vote_to_obj, add_ballots, outcome, finalize_stv_result,
}

-- Every ranking that was written as text is read back, the empty one included.
pub vote_to_obj-vote_to_str : (ranking : List ℕ) → vote_to_obj (vote_to_str ranking) ≡ some ranking
unfolding vote_to_str vote_to_obj
vote_to_obj-vote_to_str ranking = parse-write_numbers ranking

-- the ballot package of votes
abbrev pub stored : List (List ℕ × ℕ) → Counter Text
unfolding vote_to_str
stored [] = []
stored ((ranking, count) ∷ votes) = (vote_to_str ranking, count) ∷ stored votes

abbrev pub is_blank : List ℕ × ℕ → Bool
is_blank ([], count) = true
is_blank (_ ∷ _, count) = false

add_ballots-stored :
    (votes : List (List ℕ × ℕ))
    → add_ballots (stored votes) ≡ (if exists is_blank votes then none else some votes)
unfolding vote_to_str write_numbers int
add_ballots-stored [] = refl
add_ballots-stored (([], count) ∷ votes) = ground arith
add_ballots-stored ((r ∷ rs, count) ∷ votes) =
    ground (arith, ints-split_written r rs, add_ballots-stored votes)

member-difference :
    (k : ℕ) (winners candidates : List ℕ)
    → member k (select (λ c. not (member c winners)) candidates)
      ≡ (member k candidates && not (member k winners))
member-difference k winners candidates = member-select (λ c. not (member c winners)) k candidates

-- What a result of the library means: its winners are approved, and every other candidate is denied if
-- the result is complete, and nobody if it is not.
abbrev pub Decides : StvResult → Option PollResult → Type 0
Decides r result =
    (decision : PollResult) × (result ≡ some decision)
    × (decision.approved ≡ r.winners)
    × ((k : ℕ)
        → member k decision.denied
          ≡ (r.complete && (member k r.candidates && not (member k r.winners))))

outcome-Decides : (r : StvResult) → Decides r (some (outcome r))
outcome-Decides r = elim (Bool-cases r.complete) [
  | inl all ↦ (
    outcome r,
    refl,
    rw (all, outcome) refl,
    λ k. rw (all, outcome) (member-difference k r.winners r.candidates),
  )
  | inr part ↦ (outcome r, refl, rw (part, outcome) refl, λ k. rw (part, outcome) refl)
]

-- If one of the votes ranks nothing, or the library raises, the result of the poll raises. Else the
-- library gets the rankings that the voters gave, with their counts; the winners of its result are
-- approved, and every other candidate is denied if the result is complete, and nobody if it is not.
pub finalize_stv_result_lem :
    (calculate : List (List ℕ × ℕ) → Option StvResult) (votes : List (List ℕ × ℕ))
    → (exists is_blank votes || is_none (calculate votes) ≡ true)
        × (finalize_stv_result calculate (stored votes) ≡ none)
      ⊎ ((exists is_blank votes ≡ false)
          × ((r : StvResult) × (calculate votes ≡ some r)
              × Decides r (finalize_stv_result calculate (stored votes))))
unfolding finalize_stv_result
finalize_stv_result_lem calculate votes = elim (Bool-cases (exists is_blank votes)) [
  | inl blank ↦ inl (ground arith, ground (arith, add_ballots-stored votes))
  | inr ranked ↦
      let added : add_ballots (stored votes) ≡ some votes =
        add_ballots-stored votes ∙ rw ranked refl in
      elim (Option-cases (calculate votes)) [
        | inl raises ↦ inl (ground arith, rw (added, raises, finalize_stv_result) refl)
        | inr (r, e) ↦ inr (ranked, (r, e, rw (added, e, finalize_stv_result) (outcome-Decides r)))
      ]
]
