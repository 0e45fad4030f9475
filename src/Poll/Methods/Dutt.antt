-- ===== src/Poll/Methods/Dutt.antt =====
-- Dutt polls: voteit/poll/app/polls/dutt.py, with `unmatched_proposal_pks` of voteit/poll/abcs.py.
pub mod Scores
use voteit.Prelude.{
  ℕ, ◌+◌, Bool, true, false, ◌&&◌, ◌||◌, not, Option, none, some, List, [], ◌∷◌, ◌==◌, ltb,
  if◌then◌else◌, member, select, every, length, Counter, increment, nat_eq,
}
use voteit.Poll.Ballots.{PollResult}
use voteit.Poll.Methods.{decided}

pub record Settings : Type 0 where
  pub max : ℕ
  pub min : ℕ

pub data Error : Type 0 where
  too_few too_many unmatched : Error

-- `DuttSettingsSchema.validate_max_min`
unfoldable pub validate_max_min : Settings → Bool
validate_max_min s = s.max == 0 || not (ltb s.max s.min)

-- `DuttVoteSchema.validate_choices`
unfoldable pub validate_choices : List ℕ → Bool
validate_choices choices = every (λ i. not (ltb i 1)) choices

-- `unmatched_proposal_pks`, read by membership; the extra keys are valid too
unfoldable pub unmatched_proposal_pks : List ℕ → List ℕ → List ℕ → List ℕ
unmatched_proposal_pks proposals extra pks =
    select (λ pk. not (member pk proposals || member pk extra)) pks

abbrev is_nil : List ℕ → Bool
is_nil [] = true
is_nil (_ ∷ _) = false

-- `validate_vote`, of a vote that fits the schema
unfoldable pub validate_vote : Settings → List ℕ → List ℕ → Option Error
unfolding unmatched_proposal_pks
validate_vote s proposals choices =
    if not (s.min == 0) && ltb (length choices) s.min
    then some too_few
    else if not (s.max == 0) && ltb s.max (length choices)
    then some too_many
    else if is_nil (unmatched_proposal_pks proposals [] choices)
    then none
    else some unmatched

abbrev pub add_choices : List ℕ → ℕ → Counter ℕ → Counter ℕ
add_choices [] v reformatted = reformatted
add_choices (proposal ∷ choices) v reformatted =
    add_choices choices v (increment proposal v reformatted)

abbrev pub reformat : Counter (List ℕ) → Counter ℕ → Counter ℕ
reformat [] reformatted = reformatted
reformat ((choices, v) ∷ counter) reformatted = reformat counter (add_choices choices v reformatted)

unfoldable pub reformat_counter : Counter (List ℕ) → Counter ℕ
reformat_counter counter = reformat counter []

-- `start_check`, by the number of proposals
unfoldable pub dutt_start_check : Settings → ℕ → Bool
dutt_start_check s proposals = not (ltb proposals s.min) && not (ltb proposals 2)
