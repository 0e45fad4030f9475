-- ===== src/Meeting/Deletion.antt =====
-- Who may move a meeting, what closing it does, and the way into deletion and back.
use voteit.Prelude.{
  ℕ, ◌≡◌, ◌≢◌, refl, Bool, true, false, ◌&&◌, not, none, some, List, [], ◌∷◌, every, map, arith,
}
use voteit.Core.Chart.{Transition, taken, Engine}
use voteit.Core.Roles.{moderator}
use voteit.States.{MeetingState}
use voteit.States.MeetingState.{ongoing, closed, deleting}
use voteit.Rules.{User, has_role, has_perm}
use voteit.Meeting.{
  Component, disable, Meeting, Event, make_upcoming, make_ongoing, close, request_archiving,
  abort_archiving, request_delete, abort_delete, Guard, Error, send, after_transition,
  due_for_deletion,
}
use voteit.Meeting.Steps.{step, send-step}
use voteit.Meeting.Lifecycle.{created, Reach, created-IsSound, Reach-IsSound, Reach-start}

-- The row after `request_delete`.
abbrev pub marked : ℕ → Meeting → Meeting
marked now m = record m {
  state = deleting;
  pre_delete_state = some m.state;
  delete_requested = some now;
}

step-request_delete :
    (user : User) (now : ℕ) (m : Meeting)
    → has_role user moderator ≡ true
    → m.active_speaker ≡ false
    → m.state ≢ deleting
    → step request_delete user now m ≡ taken (marked now m)
unfolding step
step-request_delete user now m moderates quiet live = ground arith

step-abort_delete :
    (user : User) (later now : ℕ) (m : Meeting)
    → has_role user moderator ≡ true
    → m.active_speaker ≡ false
    → m.state ≢ deleting
    → step abort_delete user later (marked now m)
      ≡ taken (
          after_transition m.state
            (record m { pre_delete_state = some m.state; delete_requested = none }))
unfolding step
step-abort_delete user later now m moderates quiet live = ground arith

step_needs_moderator :
    (event : Event) (user : User) (now : ℕ) (m m' : Meeting)
    → step event user now m ≡ taken m'
    → has_perm user (has_role user moderator) ≡ true
unfolding step
step_needs_moderator make_upcoming user now m m' h = ground arith
step_needs_moderator make_ongoing user now m m' h = ground arith
step_needs_moderator close user now m m' h = ground arith
step_needs_moderator request_archiving user now m m' h = ground arith
step_needs_moderator abort_archiving user now m m' h = ground arith
step_needs_moderator request_delete user now m m' h = ground arith
step_needs_moderator abort_delete user now m m' h = ground arith

abbrev pub runs_on : Component → Bool
runs_on c = c.disable_on_close && c.enabled

disabled_all : (cs : List Component) → every (λ c. not (runs_on c)) (map disable cs) ≡ true
disabled_all [] = refl
disabled_all (c ∷ cs) = ground (arith, disabled_all cs)

step-close :
    (user : User) (now : ℕ) (m m' : Meeting)
    → step close user now m ≡ taken m'
    → (m.state ≡ ongoing)
      × (m.ongoing_polls ≡ false)
      × (m.active_speaker ≡ false)
      × (m'.state ≡ closed)
      × (m'.end_time ≡ some now)
      × (m'.components ≡ map disable m.components)
unfolding step
step-close user now m m' h = ground arith

module _ (engine : Engine (Transition MeetingState Event Guard) Error) where
  -- Only a moderator of the meeting or a superuser moves it, by any event.
  pub send_needs_moderator :
      (event : Event) (user : User) (now : ℕ) (m m' : Meeting)
      → send engine event user now m ≡ taken m'
      → has_perm user (has_role user moderator) ≡ true
  send_needs_moderator event user now m m' h =
      step_needs_moderator event user now m m' (rw (send-step engine event user now m) at h)

  -- A moderator can ask for the deletion of any meeting without an active speaker, and taking it
  -- back later puts the meeting into the state that it had, with nothing else of it changed but the
  -- remembered state, and the components that going to `closed` disables.
  pub request-abort_delete :
      (user : User) (now later : ℕ) (m : Meeting)
      → has_role user moderator ≡ true
      → m.active_speaker ≡ false
      → m.state ≢ deleting
      → (send engine request_delete user now m ≡ taken (marked now m))
        × (send engine abort_delete user later (marked now m)
            ≡ taken (
                after_transition m.state
                  (record m { pre_delete_state = some m.state; delete_requested = none })))
  request-abort_delete user now later m moderates quiet live = (
    rw (send-step engine request_delete user now m)
        (step-request_delete user now m moderates quiet live),
    rw (send-step engine abort_delete user later (marked now m))
        (step-abort_delete user later now m moderates quiet live),
  )

  -- A meeting closes only from `ongoing`, with no ongoing poll and no active speaker; it then has
  -- its end time, and no component that closing disables is left enabled.
  pub send-close :
      (user : User) (now : ℕ) (m m' : Meeting)
      → send engine close user now m ≡ taken m'
      → (m.state ≡ ongoing)
        × (m.ongoing_polls ≡ false)
        × (m.active_speaker ≡ false)
        × (m'.state ≡ closed)
        × (m'.end_time ≡ some now)
        × (every (λ c. not (runs_on c)) m'.components ≡ true)
  send-close user now m m' h =
      let done = step-close user now m m' (rw (send-step engine close user now m) at h) in
      (done.0, done.1, done.2, done.3, done.4, rw done.5 (disabled_all m.components))

  -- A meeting that was ongoing at any time since it was created is never picked by the job that
  -- deletes meetings, whatever happened to it since.
  pub held_meeting_not_deleted :
      (m later : Meeting) (now : ℕ)
      → Reach engine created m
      → m.state ≡ ongoing
      → Reach engine m later
      → due_for_deletion now later ≡ false
  unfolding due_for_deletion
  held_meeting_not_deleted m later now before held after = ground (
    arith,
    Reach-IsSound engine created-IsSound before,
    Reach-start engine after (ground (arith, Reach-IsSound engine created-IsSound before)),
  )
