-- ===== src/Groups.antt =====
-- Meeting groups: `adjust_membership_voting_power_when_group_changes` and the handlers of group roles
-- of voteit/meeting/signals.py, `MeetingGroup.save` of voteit/meeting/models.py, and
-- `ParticipantNumber.save` of voteit/participant_number/models.py.
pub mod Votes
pub mod Names
pub mod Dialects
use voteit.Prelude.{
  ℕ, zero, suc, ◌+◌, ◌-◌, Bool, true, false, ◌&&◌, ◌||◌, not, Option, none, some, List, [], ◌∷◌,
  ◌++◌, ◌==◌, ltb, leb, if◌then◌else◌, select, map, total, take, length, tally,
}
use voteit.Core.Roles.{Role, role_eq, difference, is_empty}
use voteit.Text.{Text, str, text_in}
use voteit.Agenda.{max_order}
use voteit.Core.Roles.Rows.{Row, add_roles, remove_roles}

abbrev pub or_zero : Option ℕ → ℕ
or_zero none = 0
or_zero (some n) = n

pub record Membership : Type 0 where
  pub user : ℕ
  pub votes : Option ℕ

abbrev pub with_votes : Membership → Bool
with_votes m = ltb 0 (or_zero m.votes)

abbrev clear : Membership → Membership
clear m = if with_votes m then record m { votes = none } else m

-- `must_clear`: the sum is none where nobody has votes
abbrev pub must_clear : Option ℕ → List Membership → Bool
must_clear votes ms =
    let votesum = total (λ m. or_zero m.votes) (select with_votes ms) in
    not (ltb 0 (or_zero votes) && ltb 0 votesum && leb votesum (or_zero votes))

-- `adjust_membership_voting_power_when_group_changes`, by the votes that the group has from then on
unfoldable pub adjust_votes : Option ℕ → List Membership → List Membership
adjust_votes votes ms = if must_clear votes ms then map clear ms else ms

-- `handle_meeting_roles_through_role_added`
unfoldable pub role_added : List Role → Row → Row
unfolding add_roles
role_added roles row = if is_empty roles then row else add_roles roles row

-- the loop of `handle_meeting_roles_through_removed` over the user's other memberships
abbrev pub subtract : List (List Role) → List Role → List Role
subtract [] roles = roles
subtract (rs ∷ rss) roles =
    let left = difference roles rs in
    let rest = subtract rss left in if is_empty left then [] else rest

-- `handle_meeting_roles_through_removed`: the roles of the group role, and of those that the user has
-- by other groups of the meeting
unfoldable pub role_removed : Bool → List Role → List (List Role) → Row → Row
unfolding remove_roles
role_removed group_roles_active roles others row =
    if is_empty roles || not group_roles_active
    then row
    else if is_empty (subtract others roles)
    then row
    else remove_roles (subtract others roles) row

-- `MeetingGroup.save`: `f"-{i}"`
abbrev pub suffix : ℕ → Text
unfolding str
suffix i = 45 ∷ str i

abbrev pub candidate : ℕ → Text → ℕ → Text
unfolding suffix
candidate max base i = take (max - length (suffix i)) base ++ suffix i

-- the loop over `i`, for as many rounds as are left
abbrev pub pick_groupid : ℕ → Text → List Text → ℕ → ℕ → Text → Text
unfolding candidate
pick_groupid max base existing zero i groupid = groupid
pick_groupid max base existing (suc rounds) i groupid =
    let later = pick_groupid max base existing rounds (suc i) (candidate max base i) in
    if text_in groupid existing then later else groupid

abbrev pub max_groupid : ℕ
max_groupid = 100

-- the id of a group that has none; `slug` is `slugify(title)`, or a random text where that is empty
unfoldable pub new_groupid : Text → List Text → Text
unfolding pick_groupid
new_groupid slug existing =
    let base = take max_groupid slug in pick_groupid max_groupid base existing 5 1 base

-- `ParticipantNumber.save` without a number, by the numbers of the system, of which it takes the largest
unfoldable pub new_number : List ℕ → ℕ
new_number ns = elim (max_order ns) [ none ↦ 1 | some n ↦ n + 1 ]
