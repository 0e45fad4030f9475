-- ===== src/Scenarios/Registers.antt =====
-- Runs of the register policies.
use voteit.Prelude.{
  ℕ, suc, ◌+◌, ◌≡◌, refl, true, false, none, some, List, [], ◌∷◌, member, select, keys, length,
  distinct, total, values_sum, every, nat_eq, Counter,
}
use voteit.Poll.Register.{Register, VoteTransfer, set_voters_from_dict}
use voteit.Poll.Policy.{Meeting, Policy, made, latest, create_er}
use voteit.Poll.Policy.Made.{represents, create_er_lem}
use voteit.Poll.Policy.Groups.{Group, Random, calc_group_votes_equal, GroupMembership, group_voters}
use voteit.Poll.Policy.Groups.Delegated.{is_counted}
use voteit.Poll.Policy.Groups.Shares.{calc_group_votes_equal_lem}
use voteit.Poll.Policy.Seats
use voteit.Poll.Policy.Seats.{distribute, main_subst_voters}
use voteit.Poll.Policy.Seats.Fair.{fair, main_subst_voters_lem}
use voteit.Poll.Policy.Delegates.{Membership, check, delegated_voters}
use voteit.Poll.Policy.Delegates.Transfers.{sound, check_keeps_sound, delegated_voters_lem}

abbrev pub meeting : Meeting
meeting = record {
  is_ongoing = true;
  group_votes_active = false;
  registers = [];
  next_pk = 5;
  in_use = 4 ∷ [];
}

abbrev pub two_voters : List (ℕ × ℕ)
two_voters = (1, 1) ∷ (2, 3) ∷ []

abbrev pub before_poll : Policy
before_poll = record {
  name = 1;
  allow_poll_er_change = false;
  group_votes_active = none;
  creates_before_poll = true;
  get_voters = some two_voters;
}

abbrev pub new_register : Register
new_register = record {
  pk = 5;
  source = 1;
  voter_data = two_voters;
  allow_voter_data_write = false;
}

abbrev after : Meeting
after = record meeting { registers = new_register ∷ []; next_pk = 6 }

create-run : create_er false before_poll meeting ≡ made (after, some new_register)
unfolding create_er set_voters_from_dict
create-run = refl

create_er_lem_example :
    (latest after ≡ some new_register) × (represents two_voters (some new_register) ≡ true)
create_er_lem_example =
    create_er_lem before_poll meeting after two_voters (some new_register) refl refl refl create-run

abbrev unshuffled : Random ℕ
unshuffled = record {
  shuffle = λ s xs. (suc s, xs);
  shuffle_length = λ s xs. refl;
  shuffle_member = λ s xs k. refl;
  shuffle_distinct = λ s xs d. d;
}

abbrev groups : List Group
groups =
    record { pk = 1; votes = 5; delegate_to = none; voters = 11 ∷ 12 ∷ [] }
    ∷ record { pk = 2; votes = 4; delegate_to = some 1; voters = 13 ∷ [] }
    ∷ []

calc_group_votes_equal_lem_example :
    values_sum (calc_group_votes_equal unshuffled groups 0)
    ≡ total (λ (g : Group). g.votes) (select (is_counted groups) groups)
calc_group_votes_equal_lem_example = calc_group_votes_equal_lem unshuffled groups 0 refl

abbrev gifts : List GroupMembership
gifts =
    record { user = 11; votes = 2; group_votes = 5; potential = true }
    ∷ record { user = 12; votes = 3; group_votes = 5; potential = false }
    ∷ []

abbrev given : Counter ℕ
given = (11, 2) ∷ []

group-run : group_voters (5 ∷ []) gifts ≡ some given
unfolding group_voters
group-run = refl

abbrev delegation : List Seats.Group
delegation =
    record { vote_power = 2; main = 21 ∷ []; substitute = 22 ∷ 23 ∷ []; vote_dist = [] } ∷ []

abbrev by_pk : ℕ → ℕ
by_pk u = u

main_subst_voters_lem_example :
    (distinct (keys (main_subst_voters by_pk delegation)) ≡ true)
    × (values_sum (main_subst_voters by_pk delegation)
          + total (λ g. g.vote_power) (distribute by_pk delegation).0
        ≡ 2)
    × (every
          (λ g. fair g (keys (main_subst_voters by_pk delegation)))
          (distribute by_pk delegation).0
        ≡ true)
main_subst_voters_lem_example = main_subst_voters_lem by_pk delegation refl

abbrev seats : List Membership
seats =
    record { group = 1; user = 21; is_main = true }
    ∷ record { group = 1; user = 22; is_main = false }
    ∷ []

abbrev gift : VoteTransfer
gift = record { source = 21; target = 22 }

check-run : check 21 22 seats [] ≡ none
unfolding check
check-run = refl

gift-sound : sound seats (gift ∷ []) ≡ true
gift-sound = check_keeps_sound gift seats [] refl refl check-run

delegated_voters_lem_example :
    (voters : List (ℕ × ℕ)) × (delegated_voters seats (gift ∷ []) ≡ some voters)
    × (length voters ≡ 1)
    × (distinct (keys voters) ≡ true)
    × (member 22 (keys voters) ≡ true)
delegated_voters_lem_example = delegated_voters_lem 22 seats (gift ∷ []) gift-sound
