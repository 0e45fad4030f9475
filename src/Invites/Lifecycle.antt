-- ===== src/Invites/Lifecycle.antt =====
-- What the events of an invite need and do, and what the jobs keep.
use voteit.Prelude.{
  ℕ, ◌≡◌, refl, ap, ◌∙◌, Bool, true, false, ◌&&◌, ◌||◌, not, if◌then◌else◌, Option, some, List, [],
  ◌∷◌, arith,
}
use voteit.Core.Chart.{
  Transition, taken, not_enabled, Engine, choose-first_enabled, first_error, fits,
}
use voteit.Core.Roles.{Role, role_eq, has, role_beq, participant, is_empty}
use voteit.Rules.{User, Meeting, has_perm}
use voteit.Core.Roles.Rows.{Row, assigned_of, add_roles}
use voteit.Invites.{
  InviteState, open_state, accepted, rejected, revoked, expired, GroupAnnotation, take_annotations,
  Event, accept, reject, revoke, expire, event_value, invite_value, Guard, Error, transitions,
  validate, Pair, perform, send, step_at, may_change_invite,
}
use voteit.Invites.Sync.{has-add_roles}

abbrev reached : Event → InviteState
reached accept = accepted
reached reject = rejected
reached revoke = revoked
reached expire = expired

abbrev is_accept : Event → Bool
is_accept accept = true
is_accept _ = false

abbrev is_revoke : Event → Bool
is_revoke revoke = true
is_revoke _ = false

abbrev user_named : Event → User → Option ℕ → Option ℕ
user_named accept user old = some user.pk
user_named reject user old = some user.pk
user_named _ user old = old

-- What one accepted event implies of an invite and its user's roles before it, `p`, and after it.
pub record Moved (event : Event) (user : User) (force : Bool) (m : Meeting) (p p' : Pair)
    : Type 0 where
  pub from_open : p.invite.state ≡ open_state
  pub to_state : p'.invite.state ≡ reached event
  pub permitted :
      (is_revoke event && not force && not (has_perm user (may_change_invite user m))) ≡ false
  pub used_by : p'.invite.used_by ≡ user_named event user p.invite.used_by
  pub same_roles : p'.invite.roles ≡ p.invite.roles
  pub row_after : p'.row ≡ (
      if is_accept event
      then take_annotations p.group_roles_active p.annotations (add_roles p.invite.roles p.row)
      else p.row)
  pub annotations_after : p'.annotations ≡ (if is_accept event then [] else p.annotations)

step_at-Moved :
    (s : InviteState) (event : Event) (now : ℕ) (user : User) (force : Bool) (m : Meeting)
    (p p' : Pair)
    → p.invite.state ≡ s
    → step_at s event now user force m p ≡ taken p'
    → Moved event user force m p p'
unfolding step_at
step_at-Moved open_state accept now user force m p p' e h = ground arith
step_at-Moved _ accept now user force m p p' e h = ground arith
step_at-Moved open_state reject now user force m p p' e h = ground arith
step_at-Moved _ reject now user force m p p' e h = ground arith
step_at-Moved open_state revoke now user force m p p' e h = ground arith
step_at-Moved _ revoke now user force m p p' e h = ground arith
step_at-Moved open_state expire now user force m p p' e h = ground arith
step_at-Moved _ expire now user force m p p' e h = ground arith

step_at-closed :
    (s : InviteState) (event later : Event) (now : ℕ) (user : User) (force : Bool) (m : Meeting)
    (p : Pair)
    → s ≡ reached event
    → step_at s later now user force m p ≡ not_enabled
unfolding step_at
step_at-closed s accept accept now user force m p e = ground arith
step_at-closed s accept _ now user force m p e = ground arith
step_at-closed s reject accept now user force m p e = ground arith
step_at-closed s reject _ now user force m p e = ground arith
step_at-closed s revoke accept now user force m p e = ground arith
step_at-closed s revoke _ now user force m p e = ground arith
step_at-closed s expire accept now user force m p e = ground arith
step_at-closed s expire _ now user force m p e = ground arith

annotated_none :
    (active : Bool) (annotations : List GroupAnnotation) (row : Row)
    → annotations ≡ []
    → take_annotations active annotations row ≡ row
unfolding take_annotations
annotated_none active [] row h = refl
annotated_none active (a ∷ rest) row h = cc

module _ (engine : Engine (Transition InviteState Event Guard) Error) where
  pub send-step_at :
      (event : Event) (now : ℕ) (user : User) (force : Bool) (m : Meeting) (p : Pair)
      → send engine event now user force m p ≡ step_at p.invite.state event now user force m p
  unfolding send step_at
  send-step_at event now user force m p = ap (perform event now user p) (
      choose-first_enabled engine (fits invite_value event_value p.invite.state (some event))
        (λ t. first_error (validate user force m) t.validators) (λ t. true) transitions)

  pub send-Moved :
      (event later : Event) (now then_at : ℕ) (user other : User) (force again : Bool) (m : Meeting)
      (p p' : Pair)
      → send engine event now user force m p ≡ taken p'
      → Moved event user force m p p' × (send engine later then_at other again m p' ≡ not_enabled)
  send-Moved event later now then_at user other force again m p p' h =
      let moved =
        step_at-Moved p.invite.state event now user force m p p' refl
          (rw (send-step_at event now user force m p) at h) in
      (
        moved,
        send-step_at later then_at other again m p'
            ∙ step_at-closed p'.invite.state event later then_at other again m p' moved.to_state,
      )

  -- Who accepts an invite without annotations has every role that it names, the roles that he had before,
  -- the role participant if it names any role, and no other role.
  pub accept_roles :
      (now : ℕ) (user : User) (force : Bool) (m : Meeting) (p p' : Pair) (r : Role)
      → p.annotations ≡ []
      → send engine accept now user force m p ≡ taken p'
      → has r (assigned_of p'.row) ≡ (
          has r (assigned_of p.row)
          || (has r p.invite.roles || role_beq r participant && not (is_empty p.invite.roles)))
  accept_roles now user force m p p' r plain h =
      let (moved, _) = send-Moved accept accept now now user user force force m p p' h in
      ap (λ row. has r (assigned_of row))
        (moved.row_after ∙ annotated_none p.group_roles_active p.annotations _ plain)
      ∙ has-add_roles p.invite.roles p.row r
