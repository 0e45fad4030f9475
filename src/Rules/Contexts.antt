-- ===== src/Rules/Contexts.antt =====
-- Permissions on the other things that meetings and agenda items hold: text documents of
-- voteit/proposal/rules.py, and voteit/discussion/rules.py, voteit/room/rules.py,
-- voteit/components/rules.py, voteit/access_policy/rules.py, voteit/active/rules.py,
-- voteit/token_api/rules.py and voteit/organisation/rules.py, and the rest of voteit/poll/rules.py and
-- voteit/reactions/rules.py.
pub mod Sealed
use voteit.Prelude.{
  ℕ, Bool, true, false, ◌&&◌, ◌||◌, not, Option, none, some, List, [], ◌∷◌, ◌==◌, exists,
}
use voteit.Rules.{
  User, Meeting, AgendaItem, is_moderator, is_discusser, is_participant, meeting_not_archived,
  meeting_upcoming_ongoing, upcoming_ongoing_or_private_ai, ai_not_archived,
  ai_discussion_not_blocked, is_not_private, meeting_is_not_archived,
}
use voteit.Rules.Content.{is_author}

pub data Permission : Type 0 where
  add change delete : Permission

abbrev pub meeting_of : Option AgendaItem → Option Meeting
meeting_of none = none
meeting_of (some ai) = some ai.meeting

-- by the agenda item of the document, and how many proposals amend its paragraphs
abbrev pub has_no_proposals : ℕ → Bool
has_no_proposals proposals = proposals == 0

unfoldable pub may_text_document : Permission → User → Option AgendaItem → ℕ → Bool
may_text_document add user ai n =
    is_moderator user (meeting_of ai) && upcoming_ongoing_or_private_ai ai
may_text_document change user ai n =
    upcoming_ongoing_or_private_ai ai && is_moderator user (meeting_of ai) && has_no_proposals n
may_text_document delete user ai n =
    is_moderator user (meeting_of ai) && upcoming_ongoing_or_private_ai ai && has_no_proposals n

abbrev pub ai_not_private : Option AgendaItem → Bool
ai_not_private none = false
ai_not_private (some ai) = is_not_private ai

-- by the agenda item and the author of the post
unfoldable pub may_discussion_post : Permission → User → Option AgendaItem → Option ℕ → Bool
may_discussion_post add user ai author =
    ai_not_archived ai
    && (is_moderator user (meeting_of ai)
        || (ai_not_private ai && ai_discussion_not_blocked ai && is_discusser user (meeting_of ai)))
may_discussion_post change user ai author =
    is_moderator user (meeting_of ai) && meeting_not_archived (meeting_of ai)
may_discussion_post delete user ai author =
    meeting_not_archived (meeting_of ai)
    && (is_moderator user (meeting_of ai) || is_author user author)

-- Rooms, components and automatic access have one rule for adding, changing and deleting, and rooms
-- for handling, too.
unfoldable pub may_room : User → Option Meeting → Bool
may_room user m = meeting_not_archived m && is_moderator user m

-- by whether the user moderates the speaker system of the room
unfoldable pub may_handle_speaker : User → Option Meeting → Bool → Bool
may_handle_speaker user m moderates = meeting_not_archived m && (is_moderator user m || moderates)

unfoldable pub may_component : User → Option Meeting → Bool
may_component user m = meeting_not_archived m && is_moderator user m

unfoldable pub may_automatic_access : User → Option Meeting → Bool
may_automatic_access user m = meeting_not_archived m && is_moderator user m

-- by whether the component for active users is enabled in the meeting
unfoldable pub may_change_active_user : User → Option Meeting → Bool → Bool
may_change_active_user user m enabled = meeting_upcoming_ongoing m && enabled && is_participant user

unfoldable pub may_api_key : Permission → User → Option Meeting → Bool
may_api_key add user m = is_moderator user m && meeting_upcoming_ongoing m
may_api_key change user m = is_moderator user m && meeting_upcoming_ongoing m
may_api_key delete user m = is_moderator user m

-- reaction buttons: adding, changing and deleting have one rule
unfoldable pub may_button : User → Option Meeting → Bool
may_button user m = meeting_upcoming_ongoing m && is_moderator user m

-- checked against the meeting
unfoldable pub may_add_register : User → Meeting → Bool
may_add_register user m = is_moderator user (some m) && meeting_is_not_archived m

unfoldable pub may_view_vote_transfer : User → ℕ → ℕ → Option Meeting → Bool
may_view_vote_transfer user source target m =
    user.pk == source || user.pk == target || is_moderator user m

-- voteit/organisation/roles.py
pub data OrganisationRole : Type 0 where
  org_manager meeting_creator : OrganisationRole

abbrev org_role_eq : OrganisationRole → OrganisationRole → Bool
org_role_eq org_manager org_manager = true
org_role_eq meeting_creator meeting_creator = true
org_role_eq _ _ = false

-- The roles of a user in his organisation; none if he has no organisation.
abbrev holds_org_role : OrganisationRole → Option (List OrganisationRole) → Bool
holds_org_role r none = false
holds_org_role r (some row) = exists (λ x. org_role_eq x r) row

-- `is_manager`, which is the field of that name in `User`
abbrev pub org_manages : User → Option (List OrganisationRole) → Bool
org_manages user row = user.is_authenticated && holds_org_role org_manager row

-- `Meeting.get_perm(ADD)`
unfoldable pub is_meeting_creator : User → Option (List OrganisationRole) → Bool
is_meeting_creator user row =
    user.is_authenticated && (holds_org_role meeting_creator row || holds_org_role org_manager row)
