-- ===== src/Agenda/Lifecycle.antt =====
-- What the events of an agenda item need, do and keep.
use voteit.Prelude.{
  ◌≡◌, ◌≢◌, refl, Bool, true, false, ◌&&◌, not, if◌then◌else◌, some, List, [], ◌∷◌, every, exists,
  map, arith, ap,
}
use voteit.Core.Chart.{Transition, taken, Engine, choose-first_enabled, first_error, fits}
use voteit.Core.Roles.{moderator}
use voteit.States.{AgendaState, agenda_value}
use voteit.States.AgendaState.{private, ongoing, closed, archived}
use voteit.Rules.{User, has_role, has_perm}
use voteit.Agenda.{
  SpeakerList, AgendaItem, Event, event_value, make_upcoming, unpublish, make_ongoing, close,
  archive, Guard, Error, transitions, validate, holds, perform, shut, send, step_at, step,
  is_ongoing, is_upcoming,
}

abbrev is_archive : Event → Bool
is_archive archive = true
is_archive _ = false

abbrev leaves_ongoing : Event → AgendaState → Bool
leaves_ongoing archive s = false
leaves_ongoing _ ongoing = true
leaves_ongoing _ _ = false

abbrev entered : Bool → AgendaState → AgendaItem → Bool
entered speakers ongoing a = is_ongoing a.item.meeting.state
entered speakers closed a =
    not (is_upcoming a.item.meeting.state) && not a.ongoing_polls && not speakers
entered speakers _ a = true

-- What one accepted event implies of the item before it, `a`, and after it.
pub record Accepted (event : Event) (user : User) (force : Bool) (a a' : AgendaItem) : Type 0 where
  pub not_final : a.item.state ≢ archived
  pub allowed : (if is_archive event then force else has_perm user (has_role user moderator)) ≡ true
  pub entry : entered (exists (λ l. l.has_active_speaker) a.speaker_lists) a'.item.state a ≡ true
  pub polls_done : (leaves_ongoing event a.item.state && a.ongoing_polls) ≡ false
  pub same_meeting : a'.item.meeting ≡ a.item.meeting

step_at-Accepted :
    (s : AgendaState) (event : Event) (user : User) (force : Bool) (a a' : AgendaItem)
    → a.item.state ≡ s
    → step_at s event user force a ≡ taken a'
    → Accepted event user force a a'
unfolding step_at
step_at-Accepted private make_upcoming user force a a' e h = ground arith
step_at-Accepted _ make_upcoming user force a a' e h = ground arith
step_at-Accepted private unpublish user force a a' e h = ground arith
step_at-Accepted _ unpublish user force a a' e h = ground arith
step_at-Accepted private make_ongoing user force a a' e h = ground arith
step_at-Accepted _ make_ongoing user force a a' e h = ground arith
step_at-Accepted private close user force a a' e h = ground arith
step_at-Accepted _ close user force a a' e h = ground arith
step_at-Accepted private archive user force a a' e h = ground arith
step_at-Accepted _ archive user force a a' e h = ground arith

abbrev pub is_shut : SpeakerList → Bool
is_shut l = not l.is_open && not l.is_active

every-shut : (ls : List SpeakerList) → every is_shut (map shut ls) ≡ true
every-shut [] = refl
every-shut (l ∷ ls) = ground (arith, every-shut ls)

step_at-lists :
    (s : AgendaState) (user : User) (force : Bool) (a a' : AgendaItem)
    → step_at s close user force a ≡ taken a'
    → a'.speaker_lists ≡ map shut a.speaker_lists
unfolding step_at
step_at-lists private user force a a' h = ground arith
step_at-lists _ user force a a' h = ground arith

module _ (engine : Engine (Transition AgendaState Event Guard) Error) where
  pub send-step :
      (event : Event) (user : User) (force : Bool) (a : AgendaItem)
      → send engine event user force a ≡ step event user force a
  unfolding send step_at
  send-step event user force a = ap (perform a) (
      choose-first_enabled engine (fits agenda_value event_value a.item.state (some event))
        (λ t. first_error (validate user a) t.validators) (λ t. every (holds force a) t.conds)
        transitions)

  -- An accepted event never starts from `archived`; all but the forced archiving need a moderator or a
  -- superuser; an item becomes ongoing only in an ongoing meeting and closed only in one that is not
  -- upcoming; it closes, or leaves `ongoing` by another event than archiving, only with no poll ongoing;
  -- it closes only with no active speaker; and its meeting is left alone.
  pub send-Accepted :
      (event : Event) (user : User) (force : Bool) (a a' : AgendaItem)
      → send engine event user force a ≡ taken a'
      → Accepted event user force a a'
  send-Accepted event user force a a' h =
      step_at-Accepted a.item.state event user force a a' refl
        (rw (send-step event user force a) at h)

  -- After an item was closed none of its speaker lists is open or active.
  pub close-lists :
      (user : User) (force : Bool) (a a' : AgendaItem)
      → send engine close user force a ≡ taken a'
      → every is_shut a'.speaker_lists ≡ true
  close-lists user force a a' h =
      rw (step_at-lists a.item.state user force a a' (rw (send-step close user force a) at h))
        (every-shut a.speaker_lists)
