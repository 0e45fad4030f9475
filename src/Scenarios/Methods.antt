-- ===== src/Scenarios/Methods.antt =====
-- Runs of the poll methods.
use voteit.Prelude.{
  ℕ, ◌≤◌, ◌≡◌, refl, true, false, ◌&&◌, ◌||◌, Option, none, some, List, [], ◌∷◌, if◌then◌else◌,
  member, length, distinct, Counter, nat_eq, arith, keys,
}
use voteit.Poll.Ballots.{PollResult}
use voteit.Poll.Methods.{decided, CombinedVote, SetPop}
use voteit.Poll.Methods.Dutt.{Settings}
use voteit.Poll.Methods.Schulze.{
  Ballots, Round, on_ballots, SchulzeMethod, schulze_format, repeated_result,
}
use voteit.Poll.Methods.Schulze.Rounds.{repeated_result_lem}

abbrev ballots : Counter CombinedVote
ballots = (record { yes = 7 ∷ []; no = 8 ∷ [] }, 3) ∷ (record { yes = []; no = 7 ∷ 8 ∷ [] }, 2) ∷ []

abbrev first_out : SetPop
first_out = record { pop = λ x xs. x; pop_member = λ x xs. ground arith }

-- A library that has every candidate once and lets the first one win.
abbrev join : List ℕ → List ℕ → List ℕ
join [] ks = ks
join (k ∷ js) ks = let rest = join js ks in if member k rest then rest else k ∷ rest

abbrev gather : Ballots → List ℕ
gather [] = []
gather ((n, ballot) ∷ bs) = join (keys ballot) (gather bs)

abbrev first_wins : List ℕ → Option Round
first_wins [] = none
first_wins (k ∷ ks) = some (record { candidates = k ∷ ks; winner = k })

member-join : (k : ℕ) (js ks : List ℕ) → member k (join js ks) ≡ (member k js || member k ks)
member-join k [] ks = refl
member-join k (j ∷ js) ks = ground (arith, member-join k js ks)

member-gather : (k : ℕ) (bs : Ballots) → member k (gather bs) ≡ on_ballots k bs
member-gather k [] = refl
member-gather k ((n, ballot) ∷ bs) =
    ground (arith, member-join k (keys ballot) (gather bs), member-gather k bs)

distinct-join : (js ks : List ℕ) → distinct ks ≡ true → distinct (join js ks) ≡ true
distinct-join [] ks d = d
distinct-join (j ∷ js) ks d = ground (arith, distinct-join js ks)

distinct-gather : (bs : Ballots) → distinct (gather bs) ≡ true
distinct-gather [] = refl
distinct-gather ((n, ballot) ∷ bs) = distinct-join (keys ballot) (gather bs) (distinct-gather bs)

first_wins-round :
    (ks : List ℕ) (r : Round)
    → first_wins ks ≡ some r
    → (r.candidates ≡ ks) × (member r.winner r.candidates ≡ true)
first_wins-round [] r h = absurd (ground arith)
first_wins-round (k ∷ ks) r h = ground arith

ranking : SchulzeMethod
ranking = record {
  rank = λ bs. first_wins (gather bs);
  candidates_on_ballots =
      λ bs r k h. ground (arith, first_wins-round (gather bs) r h, member-gather k bs);
  candidates_distinct =
      λ bs r h. ground (arith, first_wins-round (gather bs) r h, distinct-gather bs);
  winner_candidate = λ bs r h. (first_wins-round (gather bs) r h).1;
}

abbrev stars : Counter (List (ℕ × ℕ))
stars = ((7, 5) ∷ (8, 2) ∷ (0, 1) ∷ [], 3) ∷ ((8, 4) ∷ [], 2) ∷ []

abbrev best : Round
best = record { candidates = 7 ∷ 0 ∷ 8 ∷ []; winner = 7 }

rank-run : ranking.rank (schulze_format stars) ≡ some best
unfolding schulze_format ranking
rank-run = refl

abbrev both : PollResult
both = decided (7 ∷ []) (8 ∷ [])

repeated-run : repeated_result ranking true (some 2) 2 stars ≡ some both
unfolding repeated_result schulze_format ranking
repeated-run = refl

repeated_result_lem_example :
    (distinct (7 ∷ []) ≡ true)
    × (length both.approved ≤ 2)
    × (true ≡ (on_ballots 8 (schulze_format stars) && true))
    × (false ≡ false)
repeated_result_lem_example = repeated_result_lem ranking 8 2 2 true stars both repeated-run

abbrev picks : Counter (List ℕ)
picks = (1 ∷ 2 ∷ [], 2) ∷ (2 ∷ 3 ∷ [], 1) ∷ []

abbrev at_most_three : Settings
at_most_three = record { max = 3; min = 0 }
