-- ===== src/States.antt =====
-- The workflow states that the five state charts declare, in declaration order, with the sets of
-- states that the charts publish (`finished_states`, `archived_states`, `permissive_states`).
use voteit.Prelude.{ℕ, ◌≡◌, Bool, true, false, ◌==◌, arith}

-- voteit/meeting/statemachines.py
pub data MeetingState : Type 0 where
  upcoming ongoing closed archiving archived deleting : MeetingState

-- voteit/agenda/statemachines.py
pub data AgendaState : Type 0 where
  private upcoming ongoing closed archived : AgendaState

-- voteit/proposal/statemachines.py
pub data ProposalState : Type 0 where
  published retracted voting approved denied unhandled : ProposalState

-- voteit/poll/statemachines.py
pub data PollState : Type 0 where
  private upcoming ongoing closed finished withheld canceled failed no_result : PollState

-- voteit/speaker/statemachines.py
pub data SystemState : Type 0 where
  inactive active archived : SystemState

-- The `value` of a state, as a number in place of its text.
abbrev pub meeting_value : MeetingState → ℕ
meeting_value MeetingState.upcoming = 0
meeting_value MeetingState.ongoing = 1
meeting_value MeetingState.closed = 2
meeting_value MeetingState.archiving = 3
meeting_value MeetingState.archived = 4
meeting_value MeetingState.deleting = 5

abbrev pub agenda_value : AgendaState → ℕ
agenda_value AgendaState.private = 0
agenda_value AgendaState.upcoming = 1
agenda_value AgendaState.ongoing = 2
agenda_value AgendaState.closed = 3
agenda_value AgendaState.archived = 4

abbrev pub proposal_value : ProposalState → ℕ
proposal_value published = 0
proposal_value retracted = 1
proposal_value voting = 2
proposal_value approved = 3
proposal_value denied = 4
proposal_value unhandled = 5

abbrev pub poll_value : PollState → ℕ
poll_value PollState.private = 0
poll_value PollState.upcoming = 1
poll_value PollState.ongoing = 2
poll_value PollState.closed = 3
poll_value finished = 4
poll_value withheld = 5
poll_value canceled = 6
poll_value failed = 7
poll_value no_result = 8

abbrev pub system_value : SystemState → ℕ
system_value inactive = 0
system_value active = 1
system_value SystemState.archived = 2

abbrev pub meeting_finished : MeetingState → Bool
meeting_finished MeetingState.upcoming = false
meeting_finished MeetingState.ongoing = false
meeting_finished _ = true

abbrev pub meeting_archived : MeetingState → Bool
meeting_archived MeetingState.archiving = true
meeting_archived MeetingState.archived = true
meeting_archived MeetingState.deleting = true
meeting_archived _ = false

abbrev pub agenda_finished : AgendaState → Bool
agenda_finished AgendaState.closed = true
agenda_finished AgendaState.archived = true
agenda_finished _ = false

abbrev pub agenda_archived : AgendaState → Bool
agenda_archived AgendaState.archived = true
agenda_archived _ = false

abbrev pub poll_permissive : PollState → Bool
poll_permissive PollState.private = true
poll_permissive PollState.upcoming = true
poll_permissive _ = false

abbrev pub poll_finished : PollState → Bool
poll_finished finished = true
poll_finished withheld = true
poll_finished _ = false

-- Equal values are equal states.
pub meeting_value-injective :
    (a b : MeetingState) → (meeting_value a == meeting_value b) ≡ true → a ≡ b
meeting_value-injective a b h = ground arith

pub poll_value-injective : (a b : PollState) → (poll_value a == poll_value b) ≡ true → a ≡ b
poll_value-injective a b h = ground arith
