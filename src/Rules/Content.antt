-- ===== src/Rules/Content.antt =====
-- Permissions on what agenda items hold: voteit/poll/rules.py, voteit/proposal/rules.py and
-- voteit/reactions/rules.py.
use voteit.Prelude.{
  ℕ, Bool, true, false, ◌&&◌, ◌||◌, not, Option, none, some, List, [], ◌∷◌, ◌==◌, member, ◌++◌,
  if◌then◌else◌,
}
use voteit.Core.Roles.{has, Role, role_eq, moderator}
use voteit.States.{PollState, ProposalState, poll_permissive, published}
use voteit.Rules.{
  User, Meeting, AgendaItem, has_any_roles, meeting_is_not_archived, agenda_is_not_archived,
  meeting_is_not_finished, agenda_is_not_finished, is_moderator, is_proposer, is_potential_voter,
  meeting_upcoming_ongoing, upcoming_or_ongoing_ai, upcoming_ongoing_or_private_ai,
  ai_proposals_not_blocked, ai_not_archived,
}

-- What the poll rules read of a poll. `voters` are the keys of its register's `voter_data`.
pub record Poll : Type 0 where
  pub state : PollState
  pub meeting : Option Meeting
  pub agenda_item : Option AgendaItem
  pub voters : Option (List ℕ)

-- Poll permissions are checked against a poll, an agenda item or a meeting.
pub data PollContext : Type 0 where
  on_poll : Poll → PollContext
  on_agenda_item : AgendaItem → PollContext
  on_meeting : Meeting → PollContext

abbrev meeting_of : PollContext → Option Meeting
meeting_of (on_poll p) = p.meeting
meeting_of (on_agenda_item ai) = some ai.meeting
meeting_of (on_meeting m) = some m

-- a poll without an agenda item is checked against its meeting
abbrev item_not_archived : Option AgendaItem → Option Meeting → Bool
item_not_archived (some ai) m = agenda_is_not_archived ai
item_not_archived none (some m) = meeting_is_not_archived m
item_not_archived none none = false

abbrev item_not_closed : Option AgendaItem → Option Meeting → Bool
item_not_closed (some ai) m = agenda_is_not_finished ai
item_not_closed none (some m) = meeting_is_not_finished m
item_not_closed none none = false

abbrev pub polls_context_not_archived : PollContext → Bool
polls_context_not_archived (on_poll p) = item_not_archived p.agenda_item p.meeting
polls_context_not_archived (on_agenda_item ai) = agenda_is_not_archived ai
polls_context_not_archived (on_meeting m) = meeting_is_not_archived m

abbrev pub polls_context_not_closed : PollContext → Bool
polls_context_not_closed (on_poll p) = item_not_closed p.agenda_item p.meeting
polls_context_not_closed (on_agenda_item ai) = agenda_is_not_finished ai
polls_context_not_closed (on_meeting m) = meeting_is_not_finished m

unfoldable pub may_add_poll : User → PollContext → Bool
may_add_poll user c =
    is_moderator user (meeting_of c) && polls_context_not_closed c && polls_context_not_archived c

unfoldable pub may_change_poll : User → Poll → Bool
may_change_poll user p = poll_permissive p.state && is_moderator user p.meeting

unfoldable pub may_delete_poll : User → PollContext → Bool
may_delete_poll user c = is_moderator user (meeting_of c) && polls_context_not_archived c

-- `poll.change_state_poll`, which the poll's state chart asks for
unfoldable pub may_change_poll_state : User → PollContext → Bool
may_change_poll_state user c = is_moderator user (meeting_of c) && polls_context_not_archived c

abbrev pub is_poll_ongoing : Poll → Bool
is_poll_ongoing p = elim p.state [ PollState.ongoing ↦ true | _ ↦ false ]

abbrev pub is_voter : User → Poll → Bool
is_voter user p = elim p.voters [ none ↦ false | some pks ↦ member user.pk pks ]

unfoldable pub may_add_vote : User → Poll → Bool
may_add_vote user p = is_poll_ongoing p && is_voter user p

unfoldable pub may_delete_vote : User → ℕ → Poll → Bool
may_delete_vote user owner p = owner == user.pk && is_poll_ongoing p

abbrev transfers_enabled : Option Meeting → Bool
transfers_enabled none = false
transfers_enabled (some m) = m.has_transfer_policy

unfoldable pub may_add_vote_transfer : User → Option Meeting → Bool
may_add_vote_transfer user m =
    transfers_enabled m
    && meeting_upcoming_ongoing m
    && (is_potential_voter user m || is_moderator user m)

-- change and delete
unfoldable pub may_edit_vote_transfer : User → ℕ → ℕ → Option Meeting → Bool
may_edit_vote_transfer user source target m =
    transfers_enabled m
    && meeting_upcoming_ongoing m
    && (user.pk == source || user.pk == target || is_moderator user m)

-- What the proposal rules read of a proposal.
pub record Proposal : Type 0 where
  pub pk : ℕ
  pub state : ProposalState
  pub author : Option ℕ
  pub group_members : Option (List ℕ)
  pub polls : ℕ
  pub agenda_item : Option AgendaItem

abbrev meeting_of_item : Option AgendaItem → Option Meeting
meeting_of_item none = none
meeting_of_item (some ai) = some ai.meeting

abbrev pub is_author : User → Option ℕ → Bool
is_author user author = elim author [ none ↦ false | some pk ↦ pk == user.pk ]

abbrev pub is_author_or_group_author_member : User → Proposal → Bool
is_author_or_group_author_member user p =
    is_author user p.author
    || (elim p.group_members [ none ↦ false | some members ↦ member user.pk members ])

abbrev pub is_published : Proposal → Bool
is_published p = elim p.state [ published ↦ true | _ ↦ false ]

unfoldable pub may_add_proposal : User → Option AgendaItem → Bool
may_add_proposal user ai =
    (is_moderator user (meeting_of_item ai) && upcoming_ongoing_or_private_ai ai)
    || (upcoming_or_ongoing_ai ai
        && ai_proposals_not_blocked ai
        && is_proposer user (meeting_of_item ai))

unfoldable pub may_change_proposal : User → Proposal → Bool
may_change_proposal user p =
    ai_not_archived p.agenda_item
    && meeting_upcoming_ongoing (meeting_of_item p.agenda_item)
    && is_moderator user (meeting_of_item p.agenda_item)

unfoldable pub may_delete_proposal : User → Proposal → Bool
may_delete_proposal user p =
    p.polls == 0
    && is_moderator user (meeting_of_item p.agenda_item)
    && upcoming_ongoing_or_private_ai p.agenda_item

unfoldable pub may_retract_proposal : User → Proposal → Bool
may_retract_proposal user p =
    (is_moderator user (meeting_of_item p.agenda_item)
      && upcoming_ongoing_or_private_ai p.agenda_item)
    || (upcoming_or_ongoing_ai p.agenda_item
        && is_published p
        && is_author_or_group_author_member user p
        && is_proposer user (meeting_of_item p.agenda_item)
        && ai_proposals_not_blocked p.agenda_item)

-- What the reaction rules read of a button.
pub record Button : Type 0 where
  pub active : Bool
  pub flag_mode : Bool
  pub change_roles : List Role
  pub meeting : Meeting

-- `roles.append(ROLE_MODERATOR)` if it is not there
abbrev pub with_moderator : List Role → List Role
with_moderator roles = if has moderator roles then roles else roles ++ moderator ∷ []

unfoldable pub may_add_reaction : User → Button → Bool
may_add_reaction user b =
    b.active
    && meeting_upcoming_ongoing (some b.meeting)
    && ((not b.flag_mode && has_any_roles user (with_moderator b.change_roles))
        || (b.flag_mode && is_moderator user (some b.meeting)))

unfoldable pub may_delete_reaction : User → ℕ → Button → Bool
may_delete_reaction user owner b =
    b.active
    && meeting_upcoming_ongoing (some b.meeting)
    && ((not b.flag_mode && user.pk == owner && has_any_roles user (with_moderator b.change_roles))
        || (b.flag_mode && is_moderator user (some b.meeting)))
