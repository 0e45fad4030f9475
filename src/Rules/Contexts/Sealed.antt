-- ===== src/Rules/Contexts/Sealed.antt =====
-- Who may touch documents, posts and rooms, and when nobody may.
use voteit.Prelude.{
  ℕ, ◌≡◌, ◌≢◌, ◌⊎◌, inl, inr, refl, Bool, true, false, Option, some, List, arith, Bool-cases,
}
use voteit.States.{AgendaState, meeting_archived}
use voteit.Core.Roles.{moderator, discusser}
use voteit.Rules.{User, AgendaItem, has_role}
use voteit.Rules.Contexts.{
  OrganisationRole, org_manages, is_meeting_creator, Permission, add, change, delete,
  may_text_document, may_discussion_post, may_room, may_handle_speaker, may_component,
  may_automatic_access, may_change_active_user, may_button, may_api_key, may_add_register,
}

-- In a meeting that is archiving, archived or about to be deleted, nobody may change or delete a post,
-- handle speakers in a room, touch rooms, components, automatic access or reaction buttons, add keys of
-- the API or registers, or make himself active.
pub archived_contexts_sealed :
    (user : User) (ai : AgendaItem) (author : Option ℕ) (moderates enabled : Bool)
    → meeting_archived ai.meeting.state ≡ true
    → (may_discussion_post change user (some ai) author ≡ false)
      × (may_discussion_post delete user (some ai) author ≡ false)
      × (may_room user (some ai.meeting) ≡ false)
      × (may_handle_speaker user (some ai.meeting) moderates ≡ false)
      × (may_component user (some ai.meeting) ≡ false)
      × (may_automatic_access user (some ai.meeting) ≡ false)
      × (may_change_active_user user (some ai.meeting) enabled ≡ false)
      × (may_button user (some ai.meeting) ≡ false)
      × (may_api_key add user (some ai.meeting) ≡ false)
      × (may_add_register user ai.meeting ≡ false)
unfolding may_discussion_post may_room may_handle_speaker may_component may_automatic_access
    may_change_active_user may_button may_api_key may_add_register
archived_contexts_sealed user ai author moderates enabled h = (
  ground arith,
  ground arith,
  ground arith,
  ground arith,
  ground arith,
  ground arith,
  ground arith,
  ground arith,
  ground arith,
  ground arith,
)

-- A text document is only touched by a moderator, and not once its agenda item is closed or archived;
-- one that a proposal amends is neither changed nor deleted, by anybody.
pub may_text_document_lem :
    (permission : Permission) (user : User) (ai : AgendaItem) (n : ℕ)
    → may_text_document permission user (some ai) n ≡ true
    → (has_role user moderator ≡ true)
      × (ai.state ≢ AgendaState.closed)
      × (ai.state ≢ AgendaState.archived)
      × ((permission ≡ add) ⊎ (n ≡ 0))
unfolding may_text_document
may_text_document_lem add user ai n h =
    (ground arith, λ e. ground arith, λ e. ground arith, inl refl)
may_text_document_lem change user ai n h =
    (ground arith, λ e. ground arith, λ e. ground arith, inr (ground arith))
may_text_document_lem delete user ai n h =
    (ground arith, λ e. ground arith, λ e. ground arith, inr (ground arith))

-- A post is added by a moderator, or by a discusser where the item is not private and does not block
-- discussion, and by nobody on an archived item.
pub may_discussion_post_lem :
    (user : User) (ai : AgendaItem) (author : Option ℕ)
    → may_discussion_post add user (some ai) author ≡ true
    → (ai.state ≢ AgendaState.archived)
      × ((has_role user moderator ≡ true)
          ⊎ ((has_role user discusser ≡ true)
              × (ai.state ≢ AgendaState.private)
              × (ai.block_discussion ≡ false)))
unfolding may_discussion_post
may_discussion_post_lem user ai author h = (
  λ e. ground arith,
  elim (Bool-cases (has_role user moderator)) [
    | inl yes_moderator ↦ inl yes_moderator
    | inr other ↦ inr (ground arith, λ e. ground arith, ground arith)
  ],
)

-- Who manages the organisation may create meetings.
pub org_manages_creates :
    (user : User) (row : Option (List OrganisationRole))
    → org_manages user row ≡ true
    → is_meeting_creator user row ≡ true
unfolding is_meeting_creator
org_manages_creates user row h = ground arith
