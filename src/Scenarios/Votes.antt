-- ===== src/Scenarios/Votes.antt =====
-- Runs of registers, votes and the count.
use voteit.Prelude.{
  ℕ, ◌≡◌, refl, Bool, true, false, Option, none, some, List, [], ◌∷◌, arith, Eq, ◌==◌, ◌↔◌, Counter,
  inl, count_of, total, values_sum, ◌+◌,
}
use voteit.Poll.Register.{Register, ok, Vote, cast, VoteTransfer, save_transfer}
use voteit.Poll.Ballots.{PollResult, Count, finalize_vote_data, weight}
use voteit.Poll.Ballots.Conservation.{abstained, voted_for, finalize_vote_data_lem}

abbrev pub choice_beq : Option ℕ → Option ℕ → Bool
choice_beq none none = true
choice_beq (some a) (some b) = a == b
choice_beq _ _ = false

pub choice_beq_iff : (a b : Option ℕ) → (choice_beq a b ≡ true) ↔ (a ≡ b)
choice_beq_iff a b = ground arith

-- Ballots that are numbers.
instance abbrev pub choice_eq : Eq (Option ℕ)
choice_eq = record { beq = choice_beq; beq_iff = choice_beq_iff }

abbrev pub fresh : Register
fresh = record { pk = 1; source = 0; voter_data = []; allow_voter_data_write = false }

abbrev pub register : Register
register = record fresh { voter_data = (1, 2) ∷ (2, 1) ∷ (3, 5) ∷ [] }

abbrev pub ballot : ℕ → Bool → Option ℕ → Vote ℕ
ballot user abstain text = record { pk = user; user_id = user; abstain = abstain; vote_data = text }

cast-example :
    cast (some register) (ballot 2 false (some 8)) (ballot 1 true none ∷ ballot 2 true none ∷ [])
    ≡ ok (ballot 1 true none ∷ ballot 2 false (some 8) ∷ [])
unfolding cast
cast-example = refl

abbrev transfer : VoteTransfer
transfer = record { source = 1; target = 2 }

transfer-example : save_transfer (1 ∷ 2 ∷ 3 ∷ []) transfer ≡ ok transfer
unfolding save_transfer
transfer-example = refl

abbrev pub poll_votes : List (Vote ℕ)
poll_votes = ballot 1 false (some 7) ∷ ballot 2 true none ∷ ballot 3 false (some 7) ∷ []

abbrev pub count : Count ℕ
count = record {
  electoral_register = some register;
  votes = poll_votes;
  ballot_data = none;
  ballot_checksum = none;
  abstains = 0;
  result_data = none;
}

abbrev pub digest : Counter (Option ℕ) → ℕ
digest c = values_sum c

abbrev pub approve_all : Counter (Option ℕ) → Option PollResult
approve_all c = some (record { approved = 7 ∷ []; denied = []; vote_count = none })

finalize_vote_data_lem_example :
    (counter : Counter (Option ℕ)) × ((finalize_vote_data digest count).1 ≡ inl counter)
    × ((finalize_vote_data digest count).0.ballot_data ≡ some counter)
    × ((finalize_vote_data digest count).0.ballot_checksum ≡ some (digest counter))
    × (count_of (some 7) counter ≡ total (voted_for register (some 7)) poll_votes)
    × ((finalize_vote_data digest count).0.abstains ≡ total (abstained register) poll_votes)
    × ((finalize_vote_data digest count).0.abstains + values_sum counter
        ≡ total (weight register) poll_votes)
finalize_vote_data_lem_example = finalize_vote_data_lem digest count register (some 7) refl refl
