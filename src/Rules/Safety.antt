-- ===== src/Rules/Safety.antt =====
-- What the permission rules guarantee, for every user.
use voteit.Prelude.{
  ℕ, ◌≡◌, ◌⊎◌, inl, inr, refl, true, false, ◌&&◌, ◌||◌, some, List, [], ◌∷◌, ◌++◌, arith,
  Bool-cases, not,
}
use voteit.Core.Roles.{has, Role, role_eq, moderator, proposer, role_beq_iff}
use voteit.States.{AgendaState, published, meeting_archived}
use voteit.Rules.{
  User, Meeting, AgendaItem, has_role, has_perm, has_any_roles, change, change_dialect,
  change_roles, may_meeting, may_edit_groups, may_add_agenda_item, may_edit_agenda_item,
  meeting_upcoming_ongoing,
}
use voteit.Rules.Content.{
  Poll, on_poll, on_agenda_item, on_meeting, may_add_poll, may_delete_poll, may_change_poll_state,
  may_add_vote_transfer, may_edit_vote_transfer, Proposal, is_author_or_group_author_member,
  may_add_proposal, may_change_proposal, may_delete_proposal, may_retract_proposal, Button,
  with_moderator, may_add_reaction, may_delete_reaction,
}

-- In a meeting that is archiving, archived or about to be deleted, nobody but a superuser has the
-- permission to change the meeting, its dialect or its roles, to edit its groups, to add agenda items, to
-- add polls without an agenda item, or to touch vote transfers or reactions.
pub archived_meeting_sealed :
    (user : User) (m : Meeting) (b : Button) (source target owner : ℕ)
    → meeting_archived m.state ≡ true
    → b.meeting ≡ m
    → (has_perm user (may_meeting change user m) ≡ user.is_superuser)
      × (has_perm user (may_meeting change_dialect user m) ≡ user.is_superuser)
      × (has_perm user (may_meeting change_roles user m) ≡ user.is_superuser)
      × (has_perm user (may_edit_groups user (some m)) ≡ user.is_superuser)
      × (has_perm user (may_add_agenda_item user m) ≡ user.is_superuser)
      × (has_perm user (may_add_poll user (on_meeting m)) ≡ user.is_superuser)
      × (has_perm user (may_add_vote_transfer user (some m)) ≡ user.is_superuser)
      × (has_perm user (may_edit_vote_transfer user source target (some m)) ≡ user.is_superuser)
      × (has_perm user (may_add_reaction user b) ≡ user.is_superuser)
      × (has_perm user (may_delete_reaction user owner b) ≡ user.is_superuser)
unfolding may_meeting may_edit_groups may_add_agenda_item may_add_poll may_add_vote_transfer
    may_edit_vote_transfer may_add_reaction may_delete_reaction
archived_meeting_sealed user m b source target owner archived same = (
  ground arith,
  ground arith,
  ground arith,
  ground arith,
  ground arith,
  ground arith,
  ground arith,
  ground arith,
  ground arith,
  ground arith,
)

-- On an archived agenda item no rule lets a user edit the item, add, delete or change the state of a poll,
-- or add, change, delete or retract a proposal.
pub archived_item_sealed :
    (user : User) (ai : AgendaItem) (p : Poll) (q : Proposal)
    → ai.state ≡ AgendaState.archived
    → p.agenda_item ≡ some ai
    → q.agenda_item ≡ some ai
    → (may_edit_agenda_item user ai ≡ false)
      × (may_add_poll user (on_agenda_item ai) ≡ false)
      × (may_delete_poll user (on_poll p) ≡ false)
      × (may_change_poll_state user (on_poll p) ≡ false)
      × (may_add_proposal user (some ai) ≡ false)
      × (may_change_proposal user q ≡ false)
      × (may_delete_proposal user q ≡ false)
      × (may_retract_proposal user q ≡ false)
unfolding may_edit_agenda_item may_add_poll may_delete_poll may_change_poll_state may_add_proposal
    may_change_proposal may_delete_proposal may_retract_proposal
archived_item_sealed user ai p q archived on_p on_q = (
  ground arith,
  ground arith,
  ground arith,
  ground arith,
  ground arith,
  ground arith,
  ground arith,
  ground arith,
)

-- Who is no moderator retracts a proposal only as a proposer, only his own or his group's, only
-- while it is published, and only on an upcoming or ongoing item that takes proposals.
pub retract_needs :
    (user : User) (p : Proposal) (ai : AgendaItem)
    → p.agenda_item ≡ some ai
    → has_role user moderator ≡ false
    → may_retract_proposal user p ≡ true
    → (p.state ≡ published)
      × (is_author_or_group_author_member user p ≡ true)
      × (has_role user proposer ≡ true)
      × (ai.block_proposals ≡ false)
      × ((ai.state ≡ AgendaState.upcoming) ⊎ (ai.state ≡ AgendaState.ongoing))
unfolding may_retract_proposal
retract_needs user p ai on no_mod h =
    (ground arith, ground arith, ground arith, ground arith, ground arith)

has_any_roles-append :
    (user : User) (xs ys : List Role)
    → has_any_roles user (xs ++ ys) ≡ (has_any_roles user xs || has_any_roles user ys)
has_any_roles-append user [] ys = refl
has_any_roles-append user (x ∷ xs) ys = ground (arith, has_any_roles-append user xs ys)

has_any_roles-has :
    (user : User) (r : Role) (roles : List Role)
    → has r roles ≡ true
    → has_role user r ≡ true
    → has_any_roles user roles ≡ true
has_any_roles-has user r [] h k = cc
has_any_roles-has user r (x ∷ xs) h k = elim (Bool-cases (role_eq.beq x r)) [
  | inl same ↦ rw ((role_beq_iff x r).0 same) (rw k)
  | inr other ↦ ground (arith, has_any_roles-has user r xs)
]

has_any_roles-with_moderator :
    (user : User) (roles : List Role)
    → has_any_roles user (with_moderator roles)
      ≡ (has_role user moderator || has_any_roles user roles)
has_any_roles-with_moderator user roles = ground (
  arith,
  has_any_roles-has user moderator roles,
  has_any_roles-append user roles (moderator ∷ []),
)

-- A reaction may be added exactly through an active button, while the meeting is upcoming or
-- ongoing, by a moderator, or by a user with one of the button's roles if it is not in flag mode.
pub may_add_reaction_lem :
    (user : User) (b : Button)
    → may_add_reaction user b ≡ (
        b.active
        && meeting_upcoming_ongoing (some b.meeting)
        && (has_role user moderator || (not b.flag_mode && has_any_roles user b.change_roles)))
unfolding may_add_reaction
may_add_reaction_lem user b = ground (arith, has_any_roles-with_moderator user b.change_roles)
