-- ===== src/Invites.antt =====
-- Invites to a meeting: voteit/invites/statemachines.py, `MeetingInvite` and the role updates of
-- `MeetingInviteManager` of voteit/invites/models.py, the jobs of voteit/invites/jobs.py, and
-- `InviteGroup.accepted` of voteit/invites/app/invites/group.py, the one adapter that does something when
-- an invite was accepted. Times are days.
pub mod Lifecycle
pub mod Sync
use voteit.Prelude.{
  ℕ, ◌+◌, Bool, true, false, ◌&&◌, ◌||◌, not, Option, none, some, List, [], ◌∷◌, ◌==◌, ltb,
  if◌then◌else◌, is_some, select, every, map,
}
use voteit.Core.Chart.{
  Transition, Choice, taken, refused, not_enabled, Engine, first_enabled, first_error, fits,
}
use voteit.Core.Roles.{Role, role_eq, difference, is_empty}
use voteit.Core.Roles.Rows.{Row, assigned_of, add_roles, remove_roles}
use voteit.Groups.{role_added, role_removed}
use voteit.Rules.{User, Meeting, has_perm, is_moderator, meeting_not_archived}
use voteit.States.{MeetingState}

pub data InviteState : Type 0 where
  open_state accepted rejected revoked expired : InviteState

abbrev pub invite_value : InviteState → ℕ
invite_value open_state = 0
invite_value accepted = 1
invite_value rejected = 2
invite_value revoked = 3
invite_value expired = 4

pub record MeetingInvite : Type 0 where
  pub state : InviteState
  pub created : ℕ
  pub modified : ℕ
  pub used_at : Option ℕ
  pub used_by : Option ℕ
  pub roles : List Role

-- `_update_assigned_roles`, for one invite
unfoldable pub update_assigned_roles : List Role → List Role → Row → Row
unfolding add_roles remove_roles
update_assigned_roles ignore set_roles row =
    let current = assigned_of row in
    let to_remove = difference (difference current set_roles) ignore in
    let row' = if is_empty to_remove then row else remove_roles to_remove row in
    let to_add = difference (difference set_roles current) ignore in
    if is_empty to_add then row' else add_roles to_add row'

-- `change_roles`, with the roles that the dialect of the meeting blocks, for the user of the invite;
-- the order of roles is left out
unfoldable pub change_roles : List Role → List Role → MeetingInvite → Row → MeetingInvite × Row
unfolding update_assigned_roles
change_roles ignore roles i row =
    let kept = difference roles ignore in
    let i' = record i { roles = kept } in
    if is_accepted i.state && is_some i.used_by
    then (i', update_assigned_roles ignore kept row)
    else (i', row)
  where
    is_accepted : InviteState → Bool
    is_accepted accepted = true
    is_accepted _ = false

-- invites/rules.py: add, change and delete
unfoldable pub may_change_invite : User → Meeting → Bool
may_change_invite user m = is_moderator user (some m) && meeting_not_archived (some m)

pub data Event : Type 0 where
  accept reject revoke expire : Event

abbrev event_value : Event → ℕ
event_value accept = 0
event_value reject = 1
event_value revoke = 2
event_value expire = 3

pub data Guard : Type 0 where
  has_change_permission : Guard

pub data Error : Type 0 where
  permission_denied : Error

abbrev edge : Event → InviteState → List Guard → Transition InviteState Event Guard
edge e t v = record {
  source = open_state;
  event = some e;
  target = t;
  validators = v;
  conds = [];
  on = [];
}

unfoldable pub transitions : List (Transition InviteState Event Guard)
transitions =
    edge accept accepted []
    ∷ edge reject rejected []
    ∷ edge revoke revoked (has_change_permission ∷ [])
    ∷ edge expire expired []
    ∷ []

unfoldable pub validate : User → Bool → Meeting → Guard → Option Error
unfolding may_change_invite
validate user force m has_change_permission =
    if force || has_perm user (may_change_invite user m) then none else some permission_denied

-- A group annotation of an invite: the group role that the membership of the user in the group has, if he
-- is a member with one, the one that the annotation gives, each with its key and its roles, and the roles
-- of the group roles that he has by other groups when the annotation is taken care of.
pub record GroupAnnotation : Type 0 where
  pub old_role : Option (ℕ × List Role)
  pub group_role : Option (ℕ × List Role)
  pub others : List (List Role)

-- `InviteGroup.accepted`, for one annotation; a new membership has no old role
unfoldable pub take_annotation : Bool → GroupAnnotation → Row → Row
unfolding role_added role_removed
take_annotation group_roles_active a row = elim a.old_role [
  | none ↦ elim a.group_role [ none ↦ row | some (pk, roles) ↦ role_added roles row ]
  | some (old_pk, old_roles) ↦ elim a.group_role [
    | none ↦ role_removed group_roles_active old_roles a.others row
    | some (pk, roles) ↦
        if old_pk == pk
        then row
        else role_added roles (role_removed group_roles_active old_roles a.others row)
  ]
]

-- `run_accepted`
unfoldable pub take_annotations : Bool → List GroupAnnotation → Row → Row
unfolding take_annotation
take_annotations group_roles_active [] row = row
take_annotations group_roles_active (a ∷ annotations) row =
    take_annotations group_roles_active annotations (take_annotation group_roles_active a row)

-- An invite with its annotations, and the roles of the user who acts.
pub record Pair : Type 0 where
  pub invite : MeetingInvite
  pub annotations : List GroupAnnotation
  pub group_roles_active : Bool
  pub row : Row

-- `after_accept` and `after_reject`; the annotations are deleted when they are taken care of
unfoldable pub after_event : Event → ℕ → User → Pair → Pair
unfolding add_roles take_annotations
after_event accept now user p = record p {
  invite = record (p.invite) { used_by = some user.pk; used_at = some now };
  annotations = [];
  row = take_annotations p.group_roles_active p.annotations (add_roles p.invite.roles p.row);
}
after_event reject now user p = record p { invite = record (p.invite) { used_by = some user.pk } }
after_event _ now user p = p

abbrev pub with_state : InviteState → Pair → Pair
with_state s p = record p { invite = record (p.invite) { state = s } }

unfoldable pub perform :
    Event → ℕ → User → Pair → Choice (Transition InviteState Event Guard) Error → Choice Pair Error
unfolding after_event
perform event now user p (taken t) = taken (after_event event now user (with_state t.target p))
perform event now user p (refused e) = refused e
perform event now user p not_enabled = not_enabled

module _ (engine : Engine (Transition InviteState Event Guard) Error) where
  pub send : Event → ℕ → User → Bool → Meeting → Pair → Choice Pair Error
  unfolding perform
  send event now user force m p = perform event now user p (
      engine.choose (fits invite_value event_value p.invite.state (some event))
        (λ t. first_error (validate user force m) t.validators) (λ t. true) transitions)

unfoldable pub step_at : InviteState → Event → ℕ → User → Bool → Meeting → Pair → Choice Pair Error
unfolding transitions validate perform
step_at s event now user force m p = perform event now user p (
    first_enabled (fits invite_value event_value s (some event))
      (λ t. first_error (validate user force m) t.validators) (λ t. true) transitions)

abbrev is_open : InviteState → Bool
is_open open_state = true
is_open _ = false

abbrev meeting_closed : MeetingState → Bool
meeting_closed MeetingState.closed = true
meeting_closed _ = false

abbrev before : Option ℕ → ℕ → Bool
before none t = false
before (some e) t = ltb e t

-- `should_expire`, with the state and the end of the invite's meeting
unfoldable pub should_expire : ℕ → MeetingState → Option ℕ → MeetingInvite → Bool
should_expire threshold state end_time i =
    meeting_closed state && before end_time threshold && is_open i.state && ltb i.created threshold

-- `expire_unused_invites`, for the invites of one meeting
unfoldable pub expire_unused : ℕ → MeetingState → Option ℕ → List MeetingInvite → List MeetingInvite
unfolding should_expire
expire_unused threshold state end_time =
    map (λ i. if should_expire threshold state end_time i then record i { state = expired } else i)

abbrev expired_or_revoked : InviteState → Bool
expired_or_revoked expired = true
expired_or_revoked revoked = true
expired_or_revoked _ = false

-- `cleanup_invites`: the invites that it leaves
unfoldable pub cleanup_invites : ℕ → List MeetingInvite → List MeetingInvite
cleanup_invites now is =
    select (λ i. not (ltb (i.modified + 200) now))
      (select (λ i. not (expired_or_revoked i.state && ltb (i.modified + 30) now)) is)
