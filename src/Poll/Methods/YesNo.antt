-- ===== src/Poll/Methods/YesNo.antt =====
-- The results of the methods with yes and no (simple.py, combined_simple.py).
use voteit.Prelude.{
  ℕ, ◌+◌, ◌≡◌, ◌↔◌, refl, true, ◌&&◌, some, List, [], ◌∷◌, ltb, if◌then◌else◌, member, Counter,
  count_of, Eq, nat_eq, values_sum, arith, member-select,
}
use voteit.Poll.Methods.{
  Choice, yes, no, choice_beq, simple_result, simple_start_check, decided, CombinedVote,
  count_votes, combined_result,
}

pub choice_beq_iff : (a b : Choice) → (choice_beq a b ≡ true) ↔ (a ≡ b)
choice_beq_iff a b = ground arith

instance abbrev pub choice_eq : Eq Choice
choice_eq = record { beq = choice_beq; beq_iff = choice_beq_iff }

-- A simple poll that passes its start check has a result for any ballots: its proposal is approved if
-- the votes for it outweigh those against, denied if they are outweighed, and neither if they are equal.
pub simple_result_lem :
    (proposals : List ℕ) (counter : Counter Choice)
    → simple_start_check proposals ≡ true
    → (pk : ℕ) × (proposals ≡ pk ∷ [])
      × (simple_result proposals counter
          ≡ some (
              decided
                (if ltb (count_of no counter) (count_of yes counter) then pk ∷ [] else [])
                (if ltb (count_of yes counter) (count_of no counter) then pk ∷ [] else [])))
unfolding simple_result simple_start_check
simple_result_lem [] counter h = absurd (ground arith)
simple_result_lem (pk ∷ []) counter h = (pk, refl, ground arith)
simple_result_lem (pk ∷ qk ∷ rest) counter h = absurd (ground arith)

counted :
    (pk : ℕ) (votes : Counter CombinedVote)
    → (count_votes pk votes).yes + (count_votes pk votes).no + (count_votes pk votes).abstain
      ≡ values_sum votes
unfolding count_votes
counted pk [] = omega arith
counted pk ((vote, ct) ∷ votes) = ground (arith, counted pk votes)

-- Of each proposal of a combined poll, every vote is counted once, as yes, no or abstention; it is
-- approved exactly if yes outweighs no, denied exactly if no outweighs yes.
pub combined_result_lem :
    (pk : ℕ) (proposals : List ℕ) (votes : Counter CombinedVote)
    → ((count_votes pk votes).yes + (count_votes pk votes).no + (count_votes pk votes).abstain
        ≡ values_sum votes)
      × (member pk (combined_result proposals votes).approved
          ≡ (member pk proposals && ltb (count_votes pk votes).no (count_votes pk votes).yes))
      × (member pk (combined_result proposals votes).denied
          ≡ (member pk proposals && ltb (count_votes pk votes).yes (count_votes pk votes).no))
unfolding combined_result
combined_result_lem pk proposals votes = (
  counted pk votes,
  member-select (λ k. ltb (count_votes k votes).no (count_votes k votes).yes) pk proposals,
  member-select (λ k. ltb (count_votes k votes).yes (count_votes k votes).no) pk proposals,
)
