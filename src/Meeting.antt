-- ===== src/Meeting.antt =====
-- The life of a meeting: voteit/meeting/statemachines.py, the handlers of its transition signals
-- (voteit/speaker/signals.py, voteit/components/signals.py), and the job of voteit/meeting/jobs.py.
pub mod Steps
pub mod Lifecycle
pub mod Deletion
use voteit.Prelude.{
  ℕ, ◌+◌, ◌*◌, Bool, true, false, ◌&&◌, not, Option, none, some, List, [], ◌∷◌, ltb, ◌==◌,
  if◌then◌else◌, is_some, is_none, every, map,
}
use voteit.Core.Chart.{
  Transition, Choice, taken, refused, not_enabled, Engine, first_enabled, first_error, fits,
}
use voteit.States.{MeetingState, meeting_value}
use voteit.States.MeetingState.{upcoming, ongoing, closed, archiving, archived, deleting}
use voteit.Rules
use voteit.Rules.{User, has_perm, may_meeting, MeetingPermission, moderate, archive, delete}

pub record Component : Type 0 where
  pub disable_on_close : Bool
  pub enabled : Bool

-- Times are numbers of seconds. What the chart asks of other tables is a field: whether the
-- policy's name is registered, `polls.filter(state="ongoing").exists()`, and whether a speaker of
-- one of the meeting's lists has started and not finished.
pub record Meeting : Type 0 where
  pub state : MeetingState
  pub start_time : Option ℕ
  pub end_time : Option ℕ
  pub archive_after : Option ℕ
  pub delete_requested : Option ℕ
  pub pre_delete_state : Option MeetingState
  pub er_policy_registered : Bool
  pub ongoing_polls : Bool
  pub active_speaker : Bool
  pub components : List Component

pub data Event : Type 0 where
  make_upcoming make_ongoing close request_archiving abort_archiving : Event
  request_delete abort_delete : Event

abbrev event_value : Event → ℕ
event_value make_upcoming = 0
event_value make_ongoing = 1
event_value close = 2
event_value request_archiving = 3
event_value abort_archiving = 4
event_value request_delete = 5
event_value abort_delete = 6

-- The methods that the transitions name.
pub data Guard : Type 0 where
  has_moderate_permission has_archive_permission has_delete_permission : Guard
  valid_er_policy no_ongoing_polls : Guard
  pre_delete_state_is : MeetingState → Guard

pub data Error : Type 0 where
  permission_denied : MeetingPermission → Error
  invalid_er_policy polls_are_ongoing speaker_is_active : Error

abbrev edge :
    MeetingState
    → Event
    → MeetingState
    → List Guard
    → List Guard
    → Transition MeetingState Event Guard
edge s e t v c = record {
  source = s;
  event = some e;
  target = t;
  validators = v;
  conds = c;
  on = [];
}

-- The declarations, in their order.
unfoldable pub transitions : List (Transition MeetingState Event Guard)
transitions =
    edge ongoing make_upcoming upcoming (has_moderate_permission ∷ []) []
    ∷ edge upcoming make_ongoing ongoing (has_moderate_permission ∷ valid_er_policy ∷ []) []
    ∷ edge closed make_ongoing ongoing (has_moderate_permission ∷ valid_er_policy ∷ []) []
    ∷ edge ongoing close closed (has_moderate_permission ∷ no_ongoing_polls ∷ []) []
    ∷ edge closed request_archiving archiving (has_archive_permission ∷ []) []
    ∷ edge archiving abort_archiving closed (has_archive_permission ∷ []) []
    ∷ edge upcoming request_delete deleting (has_delete_permission ∷ []) []
    ∷ edge ongoing request_delete deleting (has_delete_permission ∷ []) []
    ∷ edge closed request_delete deleting (has_delete_permission ∷ []) []
    ∷ edge archiving request_delete deleting (has_delete_permission ∷ []) []
    ∷ edge archived request_delete deleting (has_delete_permission ∷ []) []
    ∷ restore upcoming
    ∷ restore ongoing
    ∷ restore closed
    ∷ restore archiving
    ∷ restore archived
    ∷ []
  where
    restore : MeetingState → Transition MeetingState Event Guard
    restore s =
        edge deleting abort_delete s (has_delete_permission ∷ []) (pre_delete_state_is s ∷ [])

-- The rules read the state alone for the three permissions that the chart asks for.
abbrev rules_view : Meeting → Rules.Meeting
rules_view m = record {
  state = m.state;
  public = false;
  visible_in_lists = false;
  has_transfer_policy = false;
}

abbrev require : Bool → Error → Option Error
require true e = none
require false e = some e

abbrev permit : MeetingPermission → User → Meeting → Option Error
permit p user m = require (has_perm user (may_meeting p user (rules_view m))) (permission_denied p)

unfoldable pub validate : User → Meeting → Guard → Option Error
unfolding may_meeting
validate user m has_moderate_permission = permit moderate user m
validate user m has_archive_permission = permit archive user m
validate user m has_delete_permission = permit delete user m
validate user m valid_er_policy = require m.er_policy_registered invalid_er_policy
validate user m no_ongoing_polls = require (not m.ongoing_polls) polls_are_ongoing
validate user m (pre_delete_state_is s) = none

abbrev state_is : MeetingState → Option MeetingState → Bool
state_is s none = false
state_is s (some t) = meeting_value t == meeting_value s

unfoldable pub holds : Meeting → Guard → Bool
holds m (pre_delete_state_is s) = state_is s m.pre_delete_state
holds m _ = true

-- `timedelta(days=…)`, in seconds
abbrev pub days : ℕ → ℕ
days n = n * 86400

-- The actions `on_<event>`.
unfoldable pub on_event : Event → ℕ → MeetingState → Meeting → Meeting
on_event make_upcoming now source m = m
on_event make_ongoing now source m = record m { start_time = some now }
on_event close now source m = record m { end_time = some now }
on_event request_archiving now source m = record m { archive_after = some (now + days 3) }
on_event abort_archiving now source m = record m { archive_after = none }
on_event request_delete now source m = record m {
  pre_delete_state = some source;
  delete_requested = some now;
}
on_event abort_delete now source m = record m { delete_requested = none }

-- `check_no_active_speaker_when_meeting_closes`, on the signal before the transition
unfoldable pub before_transition : MeetingState → Meeting → Option Error
before_transition closed m = require (not m.active_speaker) speaker_is_active
before_transition deleting m = require (not m.active_speaker) speaker_is_active
before_transition target m = none

abbrev disable : Component → Component
disable c = if c.disable_on_close && c.enabled then record c { enabled = false } else c

-- `disable_components_when_meeting_closes`, on the signal after the transition
unfoldable pub after_transition : MeetingState → Meeting → Meeting
after_transition closed m = record m { components = map disable m.components }
after_transition target m = m

-- The callbacks around a transition that was chosen, in the library's order.
unfoldable pub perform :
    Event → ℕ → Meeting → Choice (Transition MeetingState Event Guard) Error → Choice Meeting Error
unfolding on_event before_transition after_transition
perform event now m (taken t) = elim (before_transition t.target m) [
  | some e ↦ refused e
  | none ↦
      taken
        (after_transition t.target (record (on_event event now t.source m) { state = t.target }))
]
perform event now m (refused e) = refused e
perform event now m not_enabled = not_enabled

-- `sm.send(event, user=user)`
module _ (engine : Engine (Transition MeetingState Event Guard) Error) where
  pub send : Event → User → ℕ → Meeting → Choice Meeting Error
  send event user now m = perform event now m (
      engine.choose (fits meeting_value event_value m.state (some event))
        (λ t. first_error (validate user m) t.validators) (λ t. every (holds m) t.conds)
        transitions)

-- `Meeting.archive`, by a script; what it does to the meeting's content is `archive_items` of `Agenda`
unfoldable pub archive_meeting : Meeting → Meeting
archive_meeting m = record m { state = archived }

-- `delete_requested_meetings`, the test of its query
abbrev pub delete_after_days : ℕ
delete_after_days = 7

abbrev older : Option ℕ → ℕ → Bool
older none now = false
older (some t) now = ltb (t + days delete_after_days) now

abbrev is_deleting : MeetingState → Bool
is_deleting deleting = true
is_deleting _ = false

unfoldable pub due_for_deletion : ℕ → Meeting → Bool
due_for_deletion now m = is_deleting m.state && is_none m.start_time && older m.delete_requested now
