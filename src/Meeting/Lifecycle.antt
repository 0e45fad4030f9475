-- ===== src/Meeting/Lifecycle.antt =====
-- Invariants of a meeting over any events of any users, and the guards of each move.
use voteit.Prelude.{ℕ, ◌≡◌, Bool, true, false, Option, none, some, List, [], is_some, arith, ◌&&◌}
use voteit.Core.Chart.{Transition, taken, Engine}
use voteit.States.{MeetingState}
use voteit.States.MeetingState.{upcoming, ongoing, archiving, deleting}
use voteit.Rules.{User}
use voteit.Meeting.{
  Component, Meeting, Event, make_upcoming, make_ongoing, close, request_archiving, abort_archiving,
  request_delete, abort_delete, Guard, Error, send, archive_meeting,
}
use voteit.Meeting.Steps.{step, send-step}

-- What a meeting in this state has, by its three dates.
abbrev pub dated : MeetingState → Meeting → Bool
dated archiving m = is_some m.archive_after
dated ongoing m = is_some m.start_time
dated deleting m = false
dated _ m = true

abbrev pub restorable : Option MeetingState → Meeting → Bool
restorable none m = false
restorable (some s) m = dated s m

abbrev sound_in : MeetingState → Meeting → Bool
sound_in deleting m = is_some m.delete_requested && restorable m.pre_delete_state m
sound_in s m = dated s m

-- Between two events: a meeting that waits for archiving has its date, one that is ongoing has its
-- start, and one that waits for deletion was asked to be deleted and knows the state to go back to,
-- with what that state has.
abbrev pub IsSound : Meeting → Type 0
IsSound m = sound_in m.state m ≡ true

step-IsSound :
    (event : Event) (user : User) (now : ℕ) (m m' : Meeting)
    → step event user now m ≡ taken m'
    → IsSound m
    → IsSound m'
unfolding step
step-IsSound make_upcoming user now m m' h s = ground arith
step-IsSound make_ongoing user now m m' h s = ground arith
step-IsSound close user now m m' h s = ground arith
step-IsSound request_archiving user now m m' h s = ground arith
step-IsSound abort_archiving user now m m' h s = ground arith
step-IsSound request_delete user now m m' h s = ground arith
step-IsSound abort_delete user now m m' h s = ground arith

archive-IsSound : (m : Meeting) → IsSound m → IsSound (archive_meeting m)
unfolding archive_meeting
archive-IsSound m s = ground arith

step_keeps_start :
    (event : Event) (user : User) (now : ℕ) (m m' : Meeting)
    → step event user now m ≡ taken m'
    → is_some m.start_time ≡ true
    → is_some m'.start_time ≡ true
unfolding step
step_keeps_start make_upcoming user now m m' h s = ground arith
step_keeps_start make_ongoing user now m m' h s = ground arith
step_keeps_start close user now m m' h s = ground arith
step_keeps_start request_archiving user now m m' h s = ground arith
step_keeps_start abort_archiving user now m m' h s = ground arith
step_keeps_start request_delete user now m m' h s = ground arith
step_keeps_start abort_delete user now m m' h s = ground arith

-- A meeting as it is created.
unfoldable pub created : Meeting
created = record {
  state = upcoming;
  start_time = none;
  end_time = none;
  archive_after = none;
  delete_requested = none;
  pre_delete_state = none;
  er_policy_registered = true;
  ongoing_polls = false;
  active_speaker = false;
  components = [];
}

pub created-IsSound : IsSound created
unfolding created
created-IsSound = ground arith

module _ (engine : Engine (Transition MeetingState Event Guard) Error) where
  -- What can happen to a meeting: an event by some user at some time, the archiving script, and
  -- changes of other tables, which leave the meeting's own columns alone.
  pub data Step (m m' : Meeting) : Type 0 where
    event : (e : Event) (user : User) (now : ℕ) → send engine e user now m ≡ taken m' → Step m m'
    script : m' ≡ archive_meeting m → Step m m'
    elsewhere :
        (registered polls speaker : Bool) (components : List Component)
        → m' ≡ record m {
          er_policy_registered = registered;
          ongoing_polls = polls;
          active_speaker = speaker;
          components = components;
        }
        → Step m m'

  pub data Reach (m : Meeting) : Meeting → Type 0 where
    here : Reach m m
    next : {a b : Meeting} → Reach m a → Step a b → Reach m b

  Step-IsSound : {m m' : Meeting} → Step m m' → IsSound m → IsSound m'
  Step-IsSound {m} {m'} (event e user now h) s =
      step-IsSound e user now m m' (rw (send-step engine e user now m) at h) s
  Step-IsSound {m} (script h) s = rw h (archive-IsSound m s)
  Step-IsSound (elsewhere r p a c h) s = ground arith

  -- Whatever happens to a sound meeting, it stays sound.
  pub Reach-IsSound : {m m' : Meeting} → IsSound m → Reach m m' → IsSound m'
  Reach-IsSound s here = s
  Reach-IsSound s (next r st) = Step-IsSound st (Reach-IsSound s r)

  Step-start :
      {m m' : Meeting} → Step m m' → is_some m.start_time ≡ true → is_some m'.start_time ≡ true
  Step-start {m} {m'} (event e user now h) s =
      step_keeps_start e user now m m' (rw (send-step engine e user now m) at h) s
  Step-start (script h) s = rw h (unfold archive_meeting in s)
  Step-start (elsewhere r p a c h) s = rw h s

  pub Reach-start :
      {m m' : Meeting} → Reach m m' → is_some m.start_time ≡ true → is_some m'.start_time ≡ true
  Reach-start here s = s
  Reach-start (next r st) s = Step-start st (Reach-start r s)
