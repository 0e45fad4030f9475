-- ===== src/Agenda.antt =====
-- The life of an agenda item: voteit/agenda/statemachines.py, `AgendaItem.save` of
-- voteit/agenda/models.py, and the handlers of voteit/speaker/signals.py on its transitions.
pub mod Lifecycle
pub mod Order
use voteit.Prelude.{
  ℕ, suc, ◌+◌, Bool, true, false, ◌&&◌, ◌||◌, not, Option, none, some, List, [], ◌∷◌, ltb, ◌==◌,
  if◌then◌else◌, exists, every, map,
}
use voteit.Core.Chart.{
  Transition, Choice, taken, refused, not_enabled, Engine, first_enabled, first_error, fits,
}
use voteit.States.{MeetingState, AgendaState, agenda_value}
use voteit.States.AgendaState.{private, upcoming, ongoing, closed, archived}
use voteit.Rules
use voteit.Rules.{User, has_perm, may_edit_agenda_item}

-- A speaker list of the item: whether it is open, whether it is the active list of its system, and
-- whether one of its speakers has started and not finished.
pub record SpeakerList : Type 0 where
  pub is_open : Bool
  pub is_active : Bool
  pub has_active_speaker : Bool

pub record AgendaItem : Type 0 where
  pub item : Rules.AgendaItem
  pub ongoing_polls : Bool
  pub speaker_lists : List SpeakerList

pub data Event : Type 0 where
  make_upcoming unpublish make_ongoing close archive : Event

abbrev event_value : Event → ℕ
event_value make_upcoming = 0
event_value unpublish = 1
event_value make_ongoing = 2
event_value close = 3
event_value archive = 4

pub data Guard : Type 0 where
  has_change_permission no_ongoing_polls : Guard
  meeting_is_ongoing meeting_not_upcoming not_allowed : Guard

pub data Error : Type 0 where
  permission_denied polls_are_ongoing speaker_is_active : Error

abbrev edge :
    AgendaState → Event → AgendaState → List Guard → List Guard → Transition AgendaState Event Guard
edge s e t v c = record {
  source = s;
  event = some e;
  target = t;
  validators = v;
  conds = c;
  on = [];
}

unfoldable pub transitions : List (Transition AgendaState Event Guard)
transitions =
    edge private make_upcoming upcoming (has_change_permission ∷ []) []
    ∷ edge closed make_upcoming upcoming (has_change_permission ∷ []) []
    ∷ edge ongoing make_upcoming upcoming (has_change_permission ∷ no_ongoing_polls ∷ []) []
    ∷ edge upcoming unpublish private (has_change_permission ∷ []) []
    ∷ edge closed unpublish private (has_change_permission ∷ []) []
    ∷ edge ongoing unpublish private (has_change_permission ∷ no_ongoing_polls ∷ []) []
    ∷ start private
    ∷ start upcoming
    ∷ start closed
    ∷ finish private
    ∷ finish upcoming
    ∷ finish ongoing
    ∷ edge private archive archived [] (not_allowed ∷ [])
    ∷ edge upcoming archive archived [] (not_allowed ∷ [])
    ∷ edge ongoing archive archived [] (not_allowed ∷ [])
    ∷ edge closed archive archived [] (not_allowed ∷ [])
    ∷ []
  where
    start : AgendaState → Transition AgendaState Event Guard
    start s = edge s make_ongoing ongoing (has_change_permission ∷ []) (meeting_is_ongoing ∷ [])

    finish : AgendaState → Transition AgendaState Event Guard
    finish s =
        edge s close closed (has_change_permission ∷ no_ongoing_polls ∷ [])
          (meeting_not_upcoming ∷ [])

abbrev require : Bool → Error → Option Error
require true e = none
require false e = some e

unfoldable pub validate : User → AgendaItem → Guard → Option Error
unfolding may_edit_agenda_item
validate user a has_change_permission =
    require (has_perm user (may_edit_agenda_item user a.item)) permission_denied
validate user a no_ongoing_polls = require (not a.ongoing_polls) polls_are_ongoing
validate user a _ = none

abbrev pub is_ongoing : MeetingState → Bool
is_ongoing MeetingState.ongoing = true
is_ongoing _ = false

abbrev pub is_upcoming : MeetingState → Bool
is_upcoming MeetingState.upcoming = true
is_upcoming _ = false

-- `force` is the argument of `send` of that name.
unfoldable pub holds : Bool → AgendaItem → Guard → Bool
holds force a meeting_is_ongoing = is_ongoing a.item.meeting.state
holds force a meeting_not_upcoming = not (is_upcoming a.item.meeting.state)
holds force a not_allowed = force
holds force a _ = true

-- `check_no_active_speaker`
unfoldable pub before_transition : AgendaState → AgendaItem → Option Error
before_transition closed a =
    require (not (exists (λ l. l.has_active_speaker) a.speaker_lists)) speaker_is_active
before_transition target a = none

-- an open list is closed, an active one deactivated
abbrev pub shut : SpeakerList → SpeakerList
shut l =
    let l' = if l.is_open then record l { is_open = false } else l in
    if l'.is_active then record l' { is_active = false } else l'

-- `close_and_deactivate_when_ai_closes`
unfoldable pub after_transition : AgendaState → AgendaItem → AgendaItem
after_transition closed a = record a { speaker_lists = map shut a.speaker_lists }
after_transition target a = a

abbrev pub with_state : AgendaState → AgendaItem → AgendaItem
with_state s a = record a { item = record (a.item) { state = s } }

unfoldable pub perform :
    AgendaItem → Choice (Transition AgendaState Event Guard) Error → Choice AgendaItem Error
unfolding before_transition after_transition
perform a (taken t) = elim (before_transition t.target a) [
  | some e ↦ refused e
  | none ↦ taken (after_transition t.target (with_state t.target a))
]
perform a (refused e) = refused e
perform a not_enabled = not_enabled

module _ (engine : Engine (Transition AgendaState Event Guard) Error) where
  pub send : Event → User → Bool → AgendaItem → Choice AgendaItem Error
  send event user force a = perform a (
      engine.choose (fits agenda_value event_value a.item.state (some event))
        (λ t. first_error (validate user a) t.validators) (λ t. every (holds force a) t.conds)
        transitions)

-- The outcome, computed for every library that obeys its laws.
-- The state is an argument of its own, for proofs by cases on it.
unfoldable pub step_at : AgendaState → Event → User → Bool → AgendaItem → Choice AgendaItem Error
unfolding transitions validate holds perform
step_at s event user force a = perform a (
    first_enabled (fits agenda_value event_value s (some event))
      (λ t. first_error (validate user a) t.validators) (λ t. every (holds force a) t.conds)
      transitions)

abbrev pub step : Event → User → Bool → AgendaItem → Choice AgendaItem Error
step event user force a = step_at a.item.state event user force a

-- `AgendaItem.archive`, called for each item by `archive_agenda_items`
unfoldable pub archive_items : List AgendaItem → List AgendaItem
archive_items = map (with_state archived)

-- `AgendaItem.save` on creation: an order of 0 is replaced by one more than the largest order.
abbrev pub max_order : List ℕ → Option ℕ
max_order [] = none
max_order (n ∷ ns) = elim (max_order ns) [
  | none ↦ some n
  | some k ↦ some (if ltb k n then n else k)
]

abbrev or_zero : Option ℕ → ℕ
or_zero none = 0
or_zero (some n) = n

unfoldable pub saved_order : ℕ → List ℕ → ℕ
saved_order order orders = if order == 0 then or_zero (max_order orders) + 1 else order
