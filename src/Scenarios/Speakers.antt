-- ===== src/Scenarios/Speakers.antt =====
-- Runs of speaker lists and systems.
use voteit.Prelude.{
  ℕ, ◌+◌, ◌*◌, ◌≤◌, ◌<◌, ◌≡◌, ◌⊎◌, refl, true, false, none, some, List, [], ◌∷◌, ◌++◌, ◌==◌, take,
  tally, arith, map, if◌then◌else◌, select, ascending, every,
}
use voteit.Core.Chart.{python_statemachine, not_enabled}
use voteit.States.{MeetingState, SystemState}
use voteit.Speaker.{Speaker, SpeakerList, ListMethod, answered, stop, max_seconds, or_zero}
use voteit.Speaker.Permissions
use voteit.Speaker.Permissions.{Actor}
use voteit.Speaker.Reordered.{waiting}
use voteit.Speaker.Methods.{
  GenderSettings, priority, priority_reorder, gender_reorder, is_prio, last_not_prio,
}
use voteit.Speaker.Methods.Priority.{simple_method, priority_method}
use voteit.Speaker.Methods.Gender.{fair, alike}
use voteit.Speaker.Methods.Gender.Whole.{gender_reorder_lem}
use voteit.Speaker.Desk.{ok, start_speaker, enter}
use voteit.Speaker.Desk.Sound.{IsSound}
use voteit.Speaker.Desk.Timing.{stop_lem}
use voteit.Speaker.Desk.Served.{Request, enter_by, start_at, stored, serve_all, serve_all-IsSound}
use voteit.Speaker.Desk.Queue.{enter_lem}
use voteit.Speaker.Desk.Turns.{Started, start_speaker_lem}
use voteit.Speaker.System
use voteit.Speaker.System.{activate, archive_system, send}
use voteit.Speaker.System.Lifecycle.{archive_system_lem, cleared, finished_items}
use voteit.Scenarios.{bo, meeting_in}

abbrev empty_list : SpeakerList
empty_list = record {
  is_open = true;
  is_active_list = true;
  safe_positions = some 1;
  order = [];
  items = [];
  next_pk = 1;
}

-- 5, 6 and 7 enter, 5 speaks, and 8 enters meanwhile.
abbrev morning : List (ListMethod × Request)
morning =
    (simple_method, enter_by 5 10)
    ∷ (simple_method, enter_by 6 11)
    ∷ (priority_method 0, enter_by 7 12)
    ∷ (simple_method, start_at 1 20)
    ∷ (simple_method, enter_by 8 21)
    ∷ []

abbrev queue : SpeakerList
unfolding serve_all
queue = serve_all morning empty_list

queue_run : queue.order ≡ 5 ∷ 6 ∷ 7 ∷ 8 ∷ []
unfolding queue enter start_speaker priority_reorder
queue_run = refl

serve_all-IsSound_example : IsSound (serve_all morning empty_list)
serve_all-IsSound_example = serve_all-IsSound morning empty_list refl (refl, refl)

queue-IsSound : IsSound queue
unfolding queue
queue-IsSound = serve_all-IsSound morning empty_list refl (refl, refl)

abbrev next_up : SpeakerList
unfolding start_speaker queue
next_up = stored (start_speaker 2 (20 + 90 * 1000000) queue) queue

start_run : start_speaker 2 (20 + 90 * 1000000) queue ≡ ok next_up
unfolding queue enter start_speaker priority_reorder next_up
start_run = refl

start_speaker_lem_example : Started 2 (20 + 90 * 1000000) queue next_up
start_speaker_lem_example =
    start_speaker_lem 2 (20 + 90 * 1000000) queue next_up queue-IsSound start_run

abbrev speaking : Speaker
speaking = record { pk = 1; user = 5; created = 10; started = some 20; seconds = none }

stop_lem_example :
    (n : ℕ) × (stop 1500020 speaking ≡ answered (record speaking { seconds = some n }))
    × (1 ≤ n)
    × (n ≤ max_seconds)
    × ((n ≡ max_seconds) ⊎ (1500020 ≤ 20 + n * 1000000))
    × ((n ≡ 1) ⊎ (20 + n * 1000000 < 1500020 + 1000000))
stop_lem_example = stop_lem 1500020 20 speaking refl refl (omega arith)

nobody_twelve : tally (waiting 12) queue.items ≡ 0
unfolding queue enter start_speaker priority_reorder
nobody_twelve = refl

enter_lem_example :
    (l' : SpeakerList) × (enter (priority_method 0) 12 99 queue ≡ ok l')
    × (take (or_zero queue.safe_positions) l'.order
        ≡ take (or_zero queue.safe_positions) (queue.order ++ 12 ∷ []))
    × (enter simple_method 12 99 queue ≡ ok (record l' { order = queue.order ++ 12 ∷ [] }))
enter_lem_example = enter_lem (priority_method 0) 12 99 queue queue-IsSound nobody_twelve

abbrev bo_speaks : Actor
bo_speaks = record { user = bo; system_row = some (Permissions.speaker ∷ []) }

abbrev hall : Permissions.System
hall = record {
  meeting = meeting_in MeetingState.ongoing;
  state = SystemState.active;
  has_active_list = true;
  meeting_roles_to_speaker = [];
}

abbrev spoken : ℕ → ℕ → Speaker
spoken pk user = record { pk = pk; user = user; created = pk; started = some 1; seconds = some 60 }

abbrev comes : ℕ → ℕ → Speaker
comes pk user = record { pk = pk; user = user; created = pk; started = none; seconds = none }

abbrev history : List Speaker
history = spoken 1 5 ∷ spoken 2 6 ∷ []

abbrev line : List Speaker
line = comes 3 5 ∷ comes 4 7 ∷ comes 5 8 ∷ comes 6 9 ∷ []

-- user 9 has one of the tags with priority
abbrev tags : GenderSettings
tags = record {
  max_times = 0;
  priority_genders = 1 ∷ [];
  gender_tag = λ u. some (if u == 9 then 1 else 0);
}

gender_run :
    map (λ s. s.user) (gender_reorder tags history (comes 8 4 ∷ []) line) ≡ 9 ∷ 7 ∷ 8 ∷ 5 ∷ []
unfolding gender_reorder priority_reorder
gender_run = refl

gender_reorder_lem_example :
    (ascending (priority 0 history) (gender_reorder tags history [] line) ≡ true)
    × (fair
          (is_prio tags)
          (priority 0 history)
          (last_not_prio (is_prio tags) [])
          (gender_reorder tags history [] line)
        ≡ true)
    × (select
          (alike (is_prio tags) (priority 0 history) false 0)
          (gender_reorder tags history [] line)
        ≡ select (alike (is_prio tags) (priority 0 history) false 0) line)
gender_reorder_lem_example = gender_reorder_lem tags history [] line false 0 refl

abbrev system : System.System
system = record { context = hall; active_list = some queue; speaker_lists = queue ∷ [] }

archive_system_lem_example :
    (send python_statemachine activate bo_speaks true (archive_system system) ≡ not_enabled)
    × ((archive_system system).active_list ≡ none)
    × (every cleared (archive_system system).speaker_lists ≡ true)
    × (map finished_items (archive_system system).speaker_lists
        ≡ map finished_items system.speaker_lists)
archive_system_lem_example = archive_system_lem python_statemachine activate bo_speaks true system
