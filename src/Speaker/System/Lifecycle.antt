-- ===== src/Speaker/System/Lifecycle.antt =====
-- What the events of a speaker system need and do, and what archiving leaves.
use voteit.Prelude.{
  ◌≡◌, ◌≢◌, refl, ap, Bool, true, false, ◌&&◌, not, if◌then◌else◌, none, some, List, [], ◌∷◌, ◌==◌,
  length, every, map, select, tally, ◌∙◌, arith,
}
use voteit.Core.Chart.{
  Transition, taken, not_enabled, Engine, choose-first_enabled, first_error, fits,
}
use voteit.States.{SystemState, system_value}
use voteit.States.SystemState.{inactive, active, archived}
use voteit.Rules.{has_role, has_perm}
use voteit.Core.Roles.{moderator}
use voteit.Speaker.{Speaker, SpeakerList, unfinished}
use voteit.Speaker.Permissions.{Actor}
use voteit.Speaker.System.{
  System, Event, event_value, activate, inactivate, archive, Guard, Error, transitions, validate,
  holds, perform, send, step_at, somebody_speaks, archive_list, archive_system,
}

abbrev is_archive : Event → Bool
is_archive archive = true
is_archive _ = false

abbrev entered : Event → SystemState
entered activate = active
entered inactivate = inactive
entered archive = archived

-- What one accepted event implies of the system before it, `s`, and after it.
pub record Accepted (event : Event) (a : Actor) (force : Bool) (s s' : System) : Type 0 where
  pub not_final : s.context.state ≢ archived
  pub moved : s'.context.state ≡ entered event
  pub changed : s.context.state ≢ s'.context.state
  pub allowed :
      (if is_archive event then force else has_perm a.user (has_role a.user moderator)) ≡ true
  pub quiet : (elim event [ inactivate ↦ somebody_speaks s.active_list | _ ↦ false ]) ≡ false
  pub active_list_kept : s'.active_list ≡ elim event [ inactivate ↦ none | _ ↦ s.active_list ]
  pub lists_kept : s'.speaker_lists ≡ s.speaker_lists

step_at-Accepted :
    (state : SystemState) (event : Event) (a : Actor) (force : Bool) (s s' : System)
    → s.context.state ≡ state
    → step_at state event a force s ≡ taken s'
    → Accepted event a force s s'
unfolding step_at
step_at-Accepted inactive activate a force s s' e h = ground arith
step_at-Accepted _ activate a force s s' e h = ground arith
step_at-Accepted active inactivate a force s s' e h = ground arith
step_at-Accepted _ inactivate a force s s' e h = ground arith
step_at-Accepted inactive archive a force s s' e h = ground arith
step_at-Accepted _ archive a force s s' e h = ground arith

-- nobody is left in the order or as an unfinished item
abbrev pub cleared : SpeakerList → Bool
cleared l = length l.order == 0 && tally unfinished l.items == 0

abbrev pub finished_items : SpeakerList → List Speaker
finished_items l = select (λ s. not (unfinished s)) l.items

tally-kept : (ss : List Speaker) → tally unfinished (select (λ s. not (unfinished s)) ss) ≡ 0
tally-kept [] = ground arith
tally-kept (s ∷ ss) = ground (arith, tally-kept ss)

every-cleared : (ls : List SpeakerList) → every cleared (map archive_list ls) ≡ true
every-cleared [] = refl
every-cleared (l ∷ ls) = ground (arith, every-cleared ls, tally-kept l.items)

select-finished :
    (ss : List Speaker)
    → select (λ s. not (unfinished s)) (select (λ s. not (unfinished s)) ss)
      ≡ select (λ s. not (unfinished s)) ss
select-finished [] = refl
select-finished (s ∷ ss) = ground (arith, select-finished ss)

map-finished :
    (ls : List SpeakerList) → map finished_items (map archive_list ls) ≡ map finished_items ls
map-finished [] = refl
map-finished (l ∷ ls) = λ i. select-finished l.items i ∷ map-finished ls i

module _ (engine : Engine (Transition SystemState Event Guard) Error) where
  send-step_at :
      (event : Event) (a : Actor) (force : Bool) (s : System)
      → send engine event a force s ≡ step_at s.context.state event a force s
  unfolding send step_at
  send-step_at event a force s = ap (perform event s) (
      choose-first_enabled engine (fits system_value event_value s.context.state (some event))
        (λ t. first_error (validate a s) t.validators) (λ t. every (holds force) t.conds)
        transitions)

  -- An accepted event never starts from `archived` and leads to the state that it names, another one; all
  -- but the forced archiving need a moderator of the meeting or a superuser; a system becomes inactive
  -- only while nobody speaks on its active list, and then has no active list; other events keep the
  -- active list; and no event changes a list.
  pub send-Accepted_by :
      (event : Event) (a : Actor) (force : Bool) (s s' : System)
      → send engine event a force s ≡ taken s'
      → Accepted event a force s s'
  send-Accepted_by event a force s s' h =
      step_at-Accepted s.context.state event a force s s' refl
        (rw (send-step_at event a force s) at h)

  step_at_archived :
      (event : Event) (a : Actor) (force : Bool) (s : System)
      → step_at archived event a force s ≡ not_enabled
  unfolding step_at
  step_at_archived activate a force s = ground arith
  step_at_archived _ a force s = ground arith

  -- After a system was archived, by whatever state it had, no event is accepted or refused any more,
  -- not even a forced one; it has no active list; and its lists have an empty order and finished
  -- speakers only, which are in each list all of those that it had, in their order.
  pub archive_system_lem :
      (event : Event) (a : Actor) (force : Bool) (s : System)
      → (send engine event a force (archive_system s) ≡ not_enabled)
        × ((archive_system s).active_list ≡ none)
        × (every cleared (archive_system s).speaker_lists ≡ true)
        × (map finished_items (archive_system s).speaker_lists ≡ map finished_items s.speaker_lists)
  unfolding archive_system
  archive_system_lem event a force s = (
    send-step_at event a force (archive_system s)
        ∙ step_at_archived event a force (archive_system s),
    refl,
    every-cleared s.speaker_lists,
    map-finished s.speaker_lists,
  )
