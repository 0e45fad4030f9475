-- ===== src/Meeting/Steps.antt =====
-- The outcome of an event, computed for every library that obeys its laws.
use voteit.Prelude.{ℕ, ◌≡◌, some, ap, every}
use voteit.Core.Chart.{
  Transition, Choice, Engine, first_enabled, first_error, fits, choose-first_enabled,
}
use voteit.States.{MeetingState, meeting_value}
use voteit.Rules.{User}
use voteit.Meeting.{
  Meeting, Event, event_value, Guard, Error, transitions, validate, holds, perform, send,
}

unfoldable pub step : Event → User → ℕ → Meeting → Choice Meeting Error
unfolding transitions validate holds perform
step event user now m = perform event now m (
    first_enabled (fits meeting_value event_value m.state (some event))
      (λ t. first_error (validate user m) t.validators) (λ t. every (holds m) t.conds) transitions)

module _ (engine : Engine (Transition MeetingState Event Guard) Error) where
  pub send-step :
      (event : Event) (user : User) (now : ℕ) (m : Meeting)
      → send engine event user now m ≡ step event user now m
  unfolding send step
  send-step event user now m = ap (perform event now m) (
      choose-first_enabled engine (fits meeting_value event_value m.state (some event))
        (λ t. first_error (validate user m) t.validators) (λ t. every (holds m) t.conds)
        transitions)
