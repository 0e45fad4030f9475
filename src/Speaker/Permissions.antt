-- ===== src/Speaker/Permissions.antt =====
-- The rules of voteit/speaker/rules.py.
use voteit.Prelude.{ℕ, Bool, true, false, ◌&&◌, ◌||◌, not, Option, none, some, List, [], ◌∷◌, ◌==◌}
use voteit.Core.Roles.{Role}
use voteit.States.{SystemState}
use voteit.Rules.{
  User, Meeting, has_any_roles, is_moderator, is_participant, meeting_upcoming_ongoing,
}
use voteit.Speaker.{SpeakerList, active_speaker}

-- voteit/speaker/roles.py
pub data SystemRole : Type 0 where
  list_moderator speaker : SystemRole

-- A user, with his `SpeakerSystemRoles` in the system at hand, if there are any.
pub record Actor : Type 0 where
  pub user : User
  pub system_row : Option (List SystemRole)

-- What the rules read of a system.
pub record System : Type 0 where
  pub meeting : Meeting
  pub state : SystemState
  pub has_active_list : Bool
  pub meeting_roles_to_speaker : List Role

abbrev is_role : SystemRole → SystemRole → Bool
is_role list_moderator list_moderator = true
is_role speaker speaker = true
is_role _ _ = false

abbrev listed : SystemRole → List SystemRole → Bool
listed r [] = false
listed r (x ∷ xs) = is_role x r || listed r xs

abbrev pub has_system_role : Actor → SystemRole → Bool
has_system_role a r =
    a.user.is_authenticated && elim a.system_row [ none ↦ false | some row ↦ listed r row ]

abbrev pub is_speaker_moderator : Actor → Option System → Bool
is_speaker_moderator a none = false
is_speaker_moderator a (some s) = has_system_role a list_moderator

abbrev pub has_speaker_role : Actor → Option System → Bool
has_speaker_role a none = false
has_speaker_role a (some s) =
    has_any_roles a.user s.meeting_roles_to_speaker
    || (has_system_role a speaker || has_system_role a list_moderator)

abbrev state_active : SystemState → Bool
state_active SystemState.active = true
state_active _ = false

abbrev state_archived : SystemState → Bool
state_archived SystemState.archived = true
state_archived _ = false

-- `SpeakerListSystem.is_active` and `is_archived`
abbrev pub is_system_active : Option System → Bool
is_system_active none = false
is_system_active (some s) = state_active s.state

abbrev pub is_system_not_archived : Option System → Bool
is_system_not_archived none = false
is_system_not_archived (some s) = not (state_archived s.state)

abbrev pub has_no_active_list : Option System → Bool
has_no_active_list none = false
has_no_active_list (some s) = not s.has_active_list

unfoldable pub not_currently_speaking : ℕ → SpeakerList → Bool
unfolding active_speaker
not_currently_speaking user l = elim (active_speaker l) [
  | none ↦ true
  | some s ↦ not (s.user == user)
]

abbrev meeting_of : Option System → Option Meeting
meeting_of none = none
meeting_of (some s) = some s.meeting

abbrev moderates : Actor → Option System → Bool
moderates a s = is_speaker_moderator a s || is_moderator a.user (meeting_of s)

-- Permissions on a list, by the list and its system, whose meeting is the list's.
pub data ListPermission : Type 0 where
  add change delete enter shuffle : ListPermission

unfoldable pub may_list : ListPermission → Actor → Option System → SpeakerList → Bool
unfolding not_currently_speaking
may_list add a s l = meeting_upcoming_ongoing (meeting_of s) && moderates a s
may_list change a s l = meeting_upcoming_ongoing (meeting_of s) && moderates a s
may_list delete a s l = is_system_not_archived s && moderates a s
may_list enter a s l =
    l.is_open
    && meeting_upcoming_ongoing (meeting_of s)
    && not_currently_speaking a.user.pk l
    && (has_speaker_role a s || is_moderator a.user (meeting_of s))
may_list shuffle a s l = meeting_upcoming_ongoing (meeting_of s) && moderates a s

-- Permissions on a system.
pub data SystemPermission : Type 0 where
  add_system change_system delete_system change_roles view_roles : SystemPermission

unfoldable pub may_system : SystemPermission → Actor → Option System → Bool
may_system add_system a s =
    is_moderator a.user (meeting_of s) && meeting_upcoming_ongoing (meeting_of s)
may_system change_system a s = is_moderator a.user (meeting_of s) && is_system_not_archived s
may_system delete_system a s =
    is_moderator a.user (meeting_of s)
    && meeting_upcoming_ongoing (meeting_of s)
    && is_system_not_archived s
    && has_no_active_list s
may_system change_roles a s = is_moderator a.user (meeting_of s) && is_system_not_archived s
may_system view_roles a s = is_participant a.user

-- Permissions on speakers.
pub data SpeakerPermission : Type 0 where
  add_speaker change_speaker delete_speaker start_it : SpeakerPermission

unfoldable pub may_speaker : SpeakerPermission → Actor → Option System → SpeakerList → Bool
may_speaker add_speaker a s l =
    moderates a s && meeting_upcoming_ongoing (meeting_of s) && is_system_active s
may_speaker change_speaker a s l = is_system_not_archived s
may_speaker delete_speaker a s l = is_system_not_archived s
may_speaker start_it a s l = l.is_active_list
