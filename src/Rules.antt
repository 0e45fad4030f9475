-- ===== src/Rules.antt =====
-- Permission rules: voteit/core/rules.py, voteit/meeting/rules.py, voteit/agenda/rules.py,
-- voteit/proposal/rules.py, voteit/poll/rules.py and voteit/reactions/rules.py. A predicate is a
-- Boolean function of the user and of what it reads of its context; `&`, `|` and `~` of the rules
-- are the Boolean operators. A context that may lack a meeting has an `Option`.
pub mod Content
pub mod Contexts
pub mod Safety
use voteit.Prelude.{
  ℕ, Bool, true, false, ◌&&◌, ◌||◌, not, Option, none, some, List, [], ◌∷◌, ◌==◌, member, is_some,
}
use voteit.Core.Roles.{has, Role, role_eq, moderator, potential_voter, discusser, proposer}
use voteit.States.{MeetingState, AgendaState, meeting_archived, meeting_finished, agenda_archived}

-- The user as a rule sees him; `is_superuser` is that of an active account. `row` is his `MeetingRoles`
-- in the meeting at hand, if there is one.
pub record User : Type 0 where
  pub pk : ℕ
  pub is_authenticated : Bool
  pub row : Option (List Role)
  pub is_manager : Bool
  pub is_superuser : Bool

pub record Meeting : Type 0 where
  pub state : MeetingState
  pub public : Bool
  pub visible_in_lists : Bool
  pub has_transfer_policy : Bool

pub record AgendaItem : Type 0 where
  pub state : AgendaState
  pub block_discussion : Bool
  pub block_proposals : Bool
  pub meeting : Meeting

abbrev row_has : Role → Option (List Role) → Bool
row_has role none = false
row_has role (some assigned) = has role assigned

-- `RoleContextMixin.has_roles` with one role, under `real_user_only`
abbrev pub has_role : User → Role → Bool
has_role user role = user.is_authenticated && row_has role user.row

-- `has_any_roles`
abbrev pub has_any_roles : User → List Role → Bool
has_any_roles user [] = false
has_any_roles user (r ∷ rs) = has_role user r || has_any_roles user rs

-- core/rules.py; the argument is `instance.state`, of a meeting or of an agenda item
abbrev pub meeting_is_not_archived : Meeting → Bool
meeting_is_not_archived m = not (meeting_archived m.state)

abbrev pub agenda_is_not_archived : AgendaItem → Bool
agenda_is_not_archived ai = not (agenda_archived ai.state)

abbrev pub meeting_is_not_finished : Meeting → Bool
meeting_is_not_finished m = not (meeting_finished m.state)

abbrev pub agenda_is_not_finished : AgendaItem → Bool
agenda_is_not_finished ai = elim ai.state [
  | AgendaState.closed ↦ false
  | AgendaState.archived ↦ false
  | _ ↦ true
]

abbrev pub is_not_private : AgendaItem → Bool
is_not_private ai = elim ai.state [ AgendaState.private ↦ false | _ ↦ true ]

-- `user.has_perm`, by what the rule of the permission says: an active superuser has every permission.
abbrev pub has_perm : User → Bool → Bool
has_perm user rule = user.is_superuser || rule

-- meeting/rules.py
abbrev pub is_participant : User → Bool
is_participant user = is_some user.row

abbrev pub in_meeting : Option Meeting → Bool
in_meeting = is_some

abbrev pub is_potential_voter : User → Option Meeting → Bool
is_potential_voter user m = in_meeting m && has_role user potential_voter

abbrev pub is_moderator : User → Option Meeting → Bool
is_moderator user m = in_meeting m && has_role user moderator

abbrev pub is_discusser : User → Option Meeting → Bool
is_discusser user m = in_meeting m && has_role user discusser

abbrev pub is_proposer : User → Option Meeting → Bool
is_proposer user m = in_meeting m && has_role user proposer

abbrev pub is_public_meeting : Option Meeting → Bool
is_public_meeting none = false
is_public_meeting (some m) = m.public

abbrev pub meeting_not_archived : Option Meeting → Bool
meeting_not_archived none = false
meeting_not_archived (some m) = meeting_is_not_archived m

abbrev state_not_archived : MeetingState → Bool
state_not_archived MeetingState.archived = false
state_not_archived _ = true

abbrev pub meeting_not_fully_archived : Option Meeting → Bool
meeting_not_fully_archived none = false
meeting_not_fully_archived (some m) = state_not_archived m.state

abbrev state_upcoming_ongoing : MeetingState → Bool
state_upcoming_ongoing MeetingState.ongoing = true
state_upcoming_ongoing MeetingState.upcoming = true
state_upcoming_ongoing _ = false

abbrev pub meeting_upcoming_ongoing : Option Meeting → Bool
meeting_upcoming_ongoing none = false
meeting_upcoming_ongoing (some m) = state_upcoming_ongoing m.state

abbrev state_upcoming : MeetingState → Bool
state_upcoming MeetingState.upcoming = true
state_upcoming _ = false

abbrev pub meeting_upcoming : Option Meeting → Bool
meeting_upcoming none = false
meeting_upcoming (some m) = state_upcoming m.state

abbrev pub can_view_meeting : User → Option Meeting → Bool
can_view_meeting user m = user.is_authenticated && (is_public_meeting m || is_participant user)

-- `Meeting.get_perm(…)`, checked against the meeting itself
pub data MeetingPermission : Type 0 where
  view moderate archive change change_dialect delete change_roles preview : MeetingPermission

unfoldable pub may_meeting : MeetingPermission → User → Meeting → Bool
may_meeting view user m = is_participant user
may_meeting moderate user m = is_moderator user (some m)
may_meeting archive user m = meeting_not_fully_archived (some m) && is_moderator user (some m)
may_meeting change user m = meeting_not_archived (some m) && is_moderator user (some m)
may_meeting change_dialect user m = meeting_upcoming (some m) && is_moderator user (some m)
may_meeting delete user m = is_moderator user (some m)
may_meeting change_roles user m =
    meeting_not_archived (some m) && (is_moderator user (some m) || user.is_manager)
may_meeting preview user m = m.visible_in_lists

-- `MeetingGroup` and `GroupMembership`: add, change and delete have one rule.
unfoldable pub may_edit_groups : User → Option Meeting → Bool
may_edit_groups user m = meeting_not_archived m && is_moderator user m

-- agenda/rules.py
abbrev pub upcoming_or_ongoing_ai : Option AgendaItem → Bool
upcoming_or_ongoing_ai none = false
upcoming_or_ongoing_ai (some ai) = elim ai.state [
  | AgendaState.upcoming ↦ true
  | AgendaState.ongoing ↦ true
  | _ ↦ false
]

abbrev pub upcoming_ongoing_or_private_ai : Option AgendaItem → Bool
upcoming_ongoing_or_private_ai none = false
upcoming_ongoing_or_private_ai (some ai) = elim ai.state [
  | AgendaState.upcoming ↦ true
  | AgendaState.ongoing ↦ true
  | AgendaState.private ↦ true
  | _ ↦ false
]

unfoldable pub can_view_ai : User → AgendaItem → Bool
can_view_ai user ai =
    is_moderator user (some ai.meeting)
    || (is_not_private ai && can_view_meeting user (some ai.meeting))

abbrev pub ai_discussion_not_blocked : Option AgendaItem → Bool
ai_discussion_not_blocked none = false
ai_discussion_not_blocked (some ai) = not ai.block_discussion

abbrev pub ai_proposals_not_blocked : Option AgendaItem → Bool
ai_proposals_not_blocked none = false
ai_proposals_not_blocked (some ai) = not ai.block_proposals

-- `getattr(None, "state", None)` is none, which is no state that passes.
abbrev pub ai_not_archived : Option AgendaItem → Bool
ai_not_archived none = false
ai_not_archived (some ai) = agenda_is_not_archived ai

unfoldable pub may_add_agenda_item : User → Meeting → Bool
may_add_agenda_item user m = meeting_is_not_archived m && is_moderator user (some m)

-- change and delete
unfoldable pub may_edit_agenda_item : User → AgendaItem → Bool
may_edit_agenda_item user ai = agenda_is_not_archived ai && is_moderator user (some ai.meeting)
