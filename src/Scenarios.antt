-- ===== src/Scenarios.antt =====
-- Concrete runs: a moderator, a participant and a meeting, and the theorems applied to them.
mod Access
mod Meetings
mod Votes
mod Proposals
mod Polls
mod Registers
mod Methods
mod Starting
mod Speakers
mod Groups
mod Messages
mod Merging
use voteit.Prelude.{ℕ, Bool, true, false, Option, none, some, List, [], ◌∷◌}
use voteit.Core.Roles.{Role, moderator, participant, potential_voter, proposer}
use voteit.States.{MeetingState, AgendaState, PollState, ProposalState, published}
use voteit.Rules
use voteit.Rules.{User}
use voteit.Rules.Content.{Proposal}

abbrev anna : User
anna = record {
  pk = 1;
  is_authenticated = true;
  row = some (moderator ∷ participant ∷ []);
  is_manager = false;
  is_superuser = false;
}

abbrev bo : User
bo = record {
  pk = 2;
  is_authenticated = true;
  row = some (participant ∷ potential_voter ∷ proposer ∷ []);
  is_manager = false;
  is_superuser = false;
}

abbrev meeting_in : MeetingState → Rules.Meeting
meeting_in s = record {
  state = s;
  public = true;
  visible_in_lists = true;
  has_transfer_policy = true;
}

abbrev item_in : AgendaState → Rules.AgendaItem
item_in s = record {
  state = s;
  block_discussion = false;
  block_proposals = false;
  meeting = meeting_in MeetingState.ongoing;
}

abbrev motion : ProposalState → Rules.AgendaItem → Proposal
motion s ai = record {
  pk = 7;
  state = s;
  author = some 2;
  group_members = none;
  polls = 1;
  agenda_item = some ai;
}
