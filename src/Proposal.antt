-- ===== src/Proposal.antt =====
-- The life of a proposal: voteit/proposal/statemachines.py, with the methods of
-- voteit/proposal/models.py that send its events.
pub mod Documents
pub mod Lifecycle
pub mod Naming
use voteit.Prelude.{ℕ, Bool, true, false, Option, none, some, List, [], ◌∷◌, every}
use voteit.Core.Chart.{
  Transition, Choice, taken, refused, not_enabled, Engine, first_enabled, first_error, fits,
}
use voteit.States.{
  ProposalState, proposal_value, published, retracted, voting, approved, denied, unhandled,
}
use voteit.Rules.{User, has_perm}
use voteit.Rules.Content.{Proposal, may_change_proposal, may_retract_proposal}

pub data Event : Type 0 where
  retract lock_for_vote approve deny mark_unhandled publish : Event

abbrev pub event_value : Event → ℕ
event_value retract = 0
event_value lock_for_vote = 1
event_value approve = 2
event_value deny = 3
event_value mark_unhandled = 4
event_value publish = 5

-- The arguments `force` and `user` of an event.
pub data Caller : Type 0 where
  forced : Caller
  by : User → Caller

pub data Guard : Type 0 where
  has_change_permission has_retract_permission : Guard

pub data Error : Type 0 where
  permission_denied : Error

abbrev edge : ProposalState → Event → ProposalState → Guard → Transition ProposalState Event Guard
edge s e t v = record {
  source = s;
  event = some e;
  target = t;
  validators = v ∷ [];
  conds = [];
  on = [];
}

unfoldable pub transitions : List (Transition ProposalState Event Guard)
transitions =
    edge published retract retracted has_retract_permission
    ∷ edge published lock_for_vote voting has_change_permission
    ∷ edge retracted lock_for_vote voting has_change_permission
    ∷ edge published approve approved has_change_permission
    ∷ edge voting approve approved has_change_permission
    ∷ edge denied approve approved has_change_permission
    ∷ edge published deny denied has_change_permission
    ∷ edge voting deny denied has_change_permission
    ∷ edge approved deny denied has_change_permission
    ∷ edge published mark_unhandled unhandled has_change_permission
    ∷ edge retracted publish published has_change_permission
    ∷ edge voting publish published has_change_permission
    ∷ edge approved publish published has_change_permission
    ∷ edge denied publish published has_change_permission
    ∷ edge unhandled publish published has_change_permission
    ∷ []

abbrev require : Bool → Option Error
require true = none
require false = some permission_denied

unfoldable pub validate : Caller → Proposal → Guard → Option Error
unfolding may_change_proposal may_retract_proposal
validate forced p _ = none
validate (by user) p has_change_permission = require (has_perm user (may_change_proposal user p))
validate (by user) p has_retract_permission = require (has_perm user (may_retract_proposal user p))

abbrev holds : Guard → Bool
holds _ = true

abbrev pub perform :
    Proposal → Choice (Transition ProposalState Event Guard) Error → Choice Proposal Error
perform p (taken t) = taken (record p { state = t.target })
perform p (refused e) = refused e
perform p not_enabled = not_enabled

module _ (engine : Engine (Transition ProposalState Event Guard) Error) where
  unfoldable pub send : Event → Caller → Proposal → Choice Proposal Error
  send event caller p = perform p (
      engine.choose (fits proposal_value event_value p.state (some event))
        (λ t. first_error (validate caller p) t.validators) (λ t. every holds t.conds) transitions)

-- The outcome, computed for every library that obeys its laws.
unfoldable pub step : Event → Caller → Proposal → Choice Proposal Error
unfolding transitions validate
step event caller p = perform p (
    first_enabled (fits proposal_value event_value p.state (some event))
      (λ t. first_error (validate caller p) t.validators) (λ t. every holds t.conds) transitions)
