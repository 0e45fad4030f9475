-- ===== src/Scenarios/Meetings.antt =====
-- Runs of a meeting and of an agenda item.
use voteit.Prelude.{◌≡◌, refl, true, false, none, some, [], ◌∷◌}
use voteit.Core.Chart.{taken, python_statemachine}
use voteit.States.{AgendaState}
use voteit.States.MeetingState.{ongoing}
use voteit.Meeting.{Meeting, make_ongoing, due_for_deletion}
use voteit.Meeting.Steps.{step, send-step}
use voteit.Meeting.Lifecycle.{IsSound, created, created-IsSound, Step, Reach, Reach-IsSound}
use voteit.Meeting.Deletion.{held_meeting_not_deleted}
use voteit.Agenda
use voteit.Agenda.{AgendaItem, SpeakerList}
use voteit.Agenda.Lifecycle.{Accepted, is_shut, send-Accepted}
use voteit.Agenda.{saved_order}
use voteit.Scenarios.{anna, item_in}

abbrev running : Meeting
running = record {
  state = ongoing;
  start_time = some 10;
  end_time = none;
  archive_after = none;
  delete_requested = none;
  pre_delete_state = none;
  er_policy_registered = true;
  ongoing_polls = false;
  active_speaker = false;
  components =
      record { disable_on_close = true; enabled = true }
      ∷ record { disable_on_close = false; enabled = true }
      ∷ [];
}

abbrev started : Meeting
started = record created { state = ongoing; start_time = some 10 }

step-start_run : step make_ongoing anna 10 created ≡ taken started
unfolding step created
step-start_run = refl

start_run : Reach python_statemachine created started
start_run = Reach.next Reach.here (
    Step.event make_ongoing anna 10
      (rw (send-step python_statemachine make_ongoing anna 10 created) step-start_run))

Reach-IsSound_example : IsSound started
Reach-IsSound_example = Reach-IsSound python_statemachine created-IsSound start_run

held_meeting_not_deleted_example : due_for_deletion 999999999 started ≡ false
held_meeting_not_deleted_example =
    held_meeting_not_deleted python_statemachine started started 999999999 start_run refl Reach.here

abbrev debate : AgendaItem
debate = record {
  item = item_in AgendaState.ongoing;
  ongoing_polls = false;
  speaker_lists = record { is_open = true; is_active = true; has_active_speaker = false } ∷ [];
}

abbrev debated : AgendaItem
debated = record {
  item = item_in AgendaState.closed;
  ongoing_polls = false;
  speaker_lists = record { is_open = false; is_active = false; has_active_speaker = false } ∷ [];
}

step-debate : Agenda.step Agenda.close anna false debate ≡ taken debated
unfolding Agenda.step_at
step-debate = refl

send-debate : Agenda.send python_statemachine Agenda.close anna false debate ≡ taken debated
send-debate =
    rw (Agenda.Lifecycle.send-step python_statemachine Agenda.close anna false debate) step-debate

send-Accepted_example : Accepted Agenda.close anna false debate debated
send-Accepted_example =
    send-Accepted python_statemachine Agenda.close anna false debate debated send-debate
