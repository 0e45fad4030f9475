-- ===== src/Poll/Machine.antt =====
-- The life of a poll: voteit/poll/statemachines.py, with the methods of `Poll`
-- (voteit/poll/models.py) that its actions call.
pub mod Actions
pub mod Closing
pub mod Sound
pub mod Reached
pub mod Handled
use voteit.Prelude.{
  ℕ, Bool, true, false, ◌&&◌, ◌||◌, not, ◌==◌, Option, none, some, List, [], ◌∷◌, if◌then◌else◌,
  member, is_some, exists, every, map, Counter, Eq, keys,
}
use voteit.Core.Chart.{
  Transition, Choice, taken, refused, not_enabled, Engine, first_enabled, first_error, fits,
}
use voteit.States.{
  ProposalState, proposal_value, PollState, poll_value, finished, withheld, canceled, failed,
  no_result, published, voting, AgendaState, MeetingState,
}
use voteit.States.PollState.{private, upcoming, ongoing, closed}
use voteit.Rules
use voteit.Rules.{User, has_perm}
use voteit.Rules.Content
use voteit.Rules.Content.{on_poll, may_change_poll_state, Proposal}
use voteit.Proposal
use voteit.Proposal.{Caller, forced, by, lock_for_vote, approve, deny, publish}
use voteit.Poll.Register.{Register, Vote}
use voteit.Poll.Ballots.{PollResult, Count, cleanup_removed_from_er_votes, calculate_result}

-- The columns of a poll, and what the chart reads of its meeting and its agenda item.
pub record Poll (B : Type 0) : Type 0 where
  pub state : PollState
  pub withheld_result : Bool
  pub started : Option ℕ
  pub closed : Option ℕ
  pub count : Count B
  pub proposals : List Proposal
  pub meeting : Option Rules.Meeting
  pub agenda_item : Option Rules.AgendaItem
  pub er_policy_registered : Bool
  pub has_latest_er : Bool
  pub require_manual : Bool

pub data Event : Type 0 where
  make_upcoming make_ongoing close publish_result withhold_result cancel unpublish : Event

abbrev pub event_value : Event → ℕ
event_value make_upcoming = 0
event_value make_ongoing = 1
event_value close = 2
event_value publish_result = 3
event_value withhold_result = 4
event_value cancel = 5
event_value unpublish = 6

pub data Guard : Type 0 where
  has_change_state_permission validate_settings validate_er_policy manual_er_not_needed : Guard
  validate_method meeting_and_ai_ongoing : Guard
  is_withheld has_populated_er has_valid_votes has_result : Guard
  negated : Guard → Guard
  set_proposals_from_result : Guard

pub data Error : Type 0 where
  permission_denied invalid_settings register_missing manual_register_needed : Error
  method_refuses item_not_ongoing meeting_not_ongoing : Error
  policy_failed no_result_to_read : Error

abbrev edge :
    PollState
    → Option Event
    → PollState
    → List Guard
    → List Guard
    → List Guard
    → Transition PollState Event Guard
edge s e t v c o = record { source = s; event = e; target = t; validators = v; conds = c; on = o }

unfoldable pub transitions : List (Transition PollState Event Guard)
transitions =
    edge private (some make_upcoming) upcoming
      (has_change_state_permission ∷ validate_settings ∷ []) [] []
    ∷ start upcoming
    ∷ start private
    ∷ plain ongoing close closed
    ∷ plain failed close closed
    ∷ plain canceled close closed
    ∷ edge withheld (some publish_result) finished (has_change_state_permission ∷ []) []
        (set_proposals_from_result ∷ [])
    ∷ plain finished withhold_result withheld
    ∷ plain ongoing cancel canceled
    ∷ plain upcoming unpublish private
    ∷ edge closed none withheld []
        (is_withheld ∷ has_populated_er ∷ has_valid_votes ∷ has_result ∷ []) []
    ∷ edge closed none finished []
        (negated is_withheld ∷ has_populated_er ∷ has_valid_votes ∷ has_result ∷ [])
        (set_proposals_from_result ∷ [])
    ∷ edge closed none no_result [] (negated has_valid_votes ∷ []) []
    ∷ edge closed none no_result [] (negated has_populated_er ∷ []) []
    ∷ edge closed none failed [] [] []
    ∷ []
  where
    plain : PollState → Event → PollState → Transition PollState Event Guard
    plain s e t = edge s (some e) t (has_change_state_permission ∷ []) [] []

    start : PollState → Transition PollState Event Guard
    start s =
        edge s (some make_ongoing) ongoing
          (has_change_state_permission ∷ validate_settings ∷ validate_er_policy
            ∷ manual_er_not_needed ∷ validate_method ∷ meeting_and_ai_ongoing ∷ [])
          [] []

abbrev require : Bool → Error → Option Error
require true e = none
require false e = some e

abbrev pub is_nil {ℓ} : {A : Type ℓ} → List A → Bool
is_nil [] = true
is_nil (_ ∷ _) = false

abbrev voters_of : Option Register → Option (List ℕ)
voters_of none = none
voters_of (some er) = some (keys er.voter_data)

-- What the rest of the program contributes: whether the settings fit the method's schema, the
-- method's `start_check`, its `calculate_result`, the SHA-512 of a ballot package, and the register
-- that the policy's `apply` leaves on the poll, none where it raises.
pub record Method (B : Type 0) : Type 0 where
  pub settings_valid : Bool
  pub start_check : List Proposal → Bool
  pub calculate : Counter (Option B) → Option PollResult
  pub sha512 : Counter (Option B) → ℕ
  pub apply : Option Register → Option (Option Register)

abbrev item_is_ongoing : Rules.AgendaItem → Bool
item_is_ongoing ai = elim ai.state [ AgendaState.ongoing ↦ true | _ ↦ false ]

abbrev meeting_is_ongoing : Rules.Meeting → Bool
meeting_is_ongoing m = elim m.state [ MeetingState.ongoing ↦ true | _ ↦ false ]

abbrev pub both_ongoing : Option Rules.Meeting → Option Rules.AgendaItem → Option Error
both_ongoing none _ = none
both_ongoing (some m) none = none
both_ongoing (some m) (some ai) =
    if item_is_ongoing ai
    then require (meeting_is_ongoing m) meeting_not_ongoing
    else some item_not_ongoing

abbrev pub populated : Option Register → Bool
populated none = false
populated (some er) = not (is_nil er.voter_data)

module _ {B : Type 0} where
  abbrev pub rules_view : Poll B → Content.Poll
  rules_view p = record {
    state = p.state;
    meeting = p.meeting;
    agenda_item = p.agenda_item;
    voters = voters_of p.count.electoral_register;
  }

  abbrev permit : Caller → Poll B → Option Error
  permit forced p = none
  permit (by user) p =
      require (has_perm user (may_change_poll_state user (on_poll (rules_view p))))
        permission_denied

  unfoldable pub validate : Method B → Caller → Poll B → Guard → Option Error
  unfolding may_change_poll_state
  validate method caller p has_change_state_permission = permit caller p
  validate method caller p validate_settings = require method.settings_valid invalid_settings
  validate method caller p validate_er_policy =
      require (not (is_some p.meeting) || p.er_policy_registered) register_missing
  validate method caller p manual_er_not_needed =
      require (not (is_some p.meeting && not p.has_latest_er && p.require_manual))
        manual_register_needed
  validate method caller p validate_method = require (method.start_check p.proposals) method_refuses
  validate method caller p meeting_and_ai_ongoing = both_ongoing p.meeting p.agenda_item
  validate method caller p _ = none

  abbrev pub valid_votes : Count B → Bool
  valid_votes c = exists (λ v. not v.abstain) c.votes

  unfoldable pub holds : Poll B → Guard → Bool
  holds p is_withheld = p.withheld_result
  holds p has_populated_er = populated p.count.electoral_register
  holds p has_valid_votes = valid_votes p.count
  holds p has_result = is_some p.count.result_data
  holds p (negated g) = not (holds p g)
  holds p _ = true
