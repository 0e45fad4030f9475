-- ===== src/Groups/Votes.antt =====
-- The votes that members of a group have, and the roles that groups give.
use voteit.Prelude.{
  ℕ, ◌≤◌, ◌≡◌, ◌⊎◌, refl, Bool, true, ◌&&◌, ◌||◌, not, Option, List, [], ◌∷◌, ltb, select, exists,
  map, total, arith,
}
use voteit.Core.Roles.{Role, role_eq, has, participant, difference}
use voteit.Core.Roles.Closure.{has-select, is_empty-has}
use voteit.Core.Roles.Rows.{Row, assigned_of}
use voteit.Invites.Sync.{has-remove_roles}
use voteit.Groups.{or_zero, Membership, with_votes, clear, adjust_votes, subtract, role_removed}

abbrev pub votes_of : List Membership → ℕ
votes_of = total (λ m. or_zero m.votes)

total-with_votes : (ms : List Membership) → votes_of (select with_votes ms) ≡ votes_of ms
total-with_votes [] = refl
total-with_votes (m ∷ ms) = ground (arith, total-with_votes ms)

total-clear : (ms : List Membership) → votes_of (map clear ms) ≡ 0
total-clear [] = refl
total-clear (m ∷ ms) = ground (arith, total-clear ms)

clear-none : (ms : List Membership) → votes_of ms ≡ 0 → map clear ms ≡ ms
clear-none [] h = refl
clear-none (m ∷ ms) h = ground (arith, clear-none ms)

-- After the votes of a group were saved, its members have no more votes than the group; and nothing
-- is changed where they had no more.
pub adjust_votes_lem :
    (votes : Option ℕ) (ms : List Membership)
    → (votes_of (adjust_votes votes ms) ≤ or_zero votes)
      × ((adjust_votes votes ms ≡ ms) ⊎ (ltb (or_zero votes) (votes_of ms) ≡ true))
unfolding adjust_votes
adjust_votes_lem votes ms = ground (arith, total-with_votes ms, total-clear ms, clear-none ms)

-- a role that one of the lists has
abbrev pub granted : Role → List (List Role) → Bool
granted r = exists (λ rs. has r rs)

has-subtract :
    (others : List (List Role)) (roles : List Role) (r : Role)
    → has r (subtract others roles) ≡ (has r roles && not (granted r others))
has-subtract [] roles r = ground arith
has-subtract (rs ∷ rss) roles r = ground (
  arith,
  has-subtract rss (difference roles rs) r,
  has-select (λ x. not (has x rs)) r roles,
  is_empty-has r (difference roles rs),
)

-- Where group roles are active, a user who loses a group role loses the roles that it gives and no
-- other of his group roles gives; if the role participant is among these, he loses every role, also
-- those that his other groups give.
pub role_removed_lem :
    (roles : List Role) (others : List (List Role)) (row : Row) (r : Role)
    → has r (assigned_of (role_removed true roles others row)) ≡ (
        has r (assigned_of row)
        && not (
            has r roles && not (granted r others)
            || has participant roles && not (granted participant others)))
unfolding role_removed
role_removed_lem roles others row r =
    let lost = subtract others roles in
    ground (
      arith,
      has-remove_roles lost row r,
      has-subtract others roles r,
      has-subtract others roles participant,
      is_empty-has r lost,
      is_empty-has participant lost,
      is_empty-has r roles,
      is_empty-has participant roles,
    )
