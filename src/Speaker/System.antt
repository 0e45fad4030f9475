-- ===== src/Speaker/System.antt =====
-- Speaker systems: the chart of voteit/speaker/statemachines.py, `SpeakerListSystem.activate`,
-- `inactivate` and `archive` of voteit/speaker/models.py, and `close_and_cleanup` of
-- voteit/speaker/signals.py.
pub mod Lifecycle
use voteit.Prelude.{
  ℕ, Bool, true, false, ◌&&◌, not, Option, none, some, List, [], ◌∷◌, is_some, if◌then◌else◌, map,
  select, every,
}
use voteit.Core.Chart.{
  Transition, Choice, taken, refused, not_enabled, Engine, first_enabled, first_error, fits,
}
use voteit.States.{SystemState, system_value}
use voteit.States.SystemState.{inactive, active, archived}
use voteit.Speaker.{SpeakerList, unfinished, active_speaker}
use voteit.Speaker.Permissions
use voteit.Rules.{has_perm}
use voteit.Speaker.Permissions.{Actor, may_system, change_system}

-- A system, with what its rules read, and its lists, the active one apart.
pub record System : Type 0 where
  pub context : Permissions.System
  pub active_list : Option SpeakerList
  pub speaker_lists : List SpeakerList

pub data Event : Type 0 where
  activate inactivate archive : Event

abbrev event_value : Event → ℕ
event_value activate = 0
event_value inactivate = 1
event_value archive = 2

pub data Guard : Type 0 where
  has_change_permission no_active_speaker not_allowed : Guard

pub data Error : Type 0 where
  permission_denied stop_current_speaker : Error

abbrev edge :
    SystemState → Event → SystemState → List Guard → List Guard → Transition SystemState Event Guard
edge s e t v c = record {
  source = s;
  event = some e;
  target = t;
  validators = v;
  conds = c;
  on = [];
}

unfoldable pub transitions : List (Transition SystemState Event Guard)
transitions =
    edge inactive activate active (has_change_permission ∷ []) []
    ∷ edge active inactivate inactive (has_change_permission ∷ no_active_speaker ∷ []) []
    ∷ edge inactive archive archived [] (not_allowed ∷ [])
    ∷ edge active archive archived [] (not_allowed ∷ [])
    ∷ []

abbrev require : Bool → Error → Option Error
require true e = none
require false e = some e

abbrev pub somebody_speaks : Option SpeakerList → Bool
unfolding active_speaker
somebody_speaks none = false
somebody_speaks (some l) = is_some (active_speaker l)

unfoldable pub validate : Actor → System → Guard → Option Error
unfolding may_system
validate a s has_change_permission =
    require (has_perm a.user (may_system change_system a (some s.context))) permission_denied
validate a s no_active_speaker = require (not (somebody_speaks s.active_list)) stop_current_speaker
validate a s not_allowed = none

unfoldable pub holds : Bool → Guard → Bool
holds force not_allowed = force
holds force _ = true

abbrev pub with_state : SystemState → System → System
with_state state s = record s { context = record (s.context) { state = state } }

abbrev pub without_active_list : System → System
without_active_list s = record s {
  active_list = none;
  context = record (s.context) { has_active_list = false };
}

-- `on_inactivate`
unfoldable pub on_event : Event → System → System
on_event inactivate s = without_active_list s
on_event _ s = s

unfoldable pub perform :
    Event → System → Choice (Transition SystemState Event Guard) Error → Choice System Error
unfolding on_event
perform event s (taken t) = taken (with_state t.target (on_event event s))
perform event s (refused e) = refused e
perform event s not_enabled = not_enabled

module _ (engine : Engine (Transition SystemState Event Guard) Error) where
  pub send : Event → Actor → Bool → System → Choice System Error
  unfolding perform
  send event a force s = perform event s (
      engine.choose (fits system_value event_value s.context.state (some event))
        (λ t. first_error (validate a s) t.validators) (λ t. every (holds force) t.conds)
        transitions)

-- The outcome, computed for every library that obeys its laws.
unfoldable pub step_at : SystemState → Event → Actor → Bool → System → Choice System Error
unfolding transitions validate holds perform
step_at state event a force s = perform event s (
    first_enabled (fits system_value event_value state (some event))
      (λ t. first_error (validate a s) t.validators) (λ t. every (holds force) t.conds) transitions)

-- A list of an archived system: speakers who did not finish are deleted, and the order is cleared.
abbrev pub archive_list : SpeakerList → SpeakerList
archive_list l = record l { order = []; items = select (λ s. not (unfinished s)) l.items }

-- `SpeakerListSystem.archive`
unfoldable pub archive_system : System → System
archive_system s = record (with_state archived (without_active_list s)) {
  speaker_lists = map archive_list s.speaker_lists;
}

-- `close_and_cleanup`
unfoldable pub close_and_cleanup : List System → List System
unfolding archive_system
close_and_cleanup = map archive_system
