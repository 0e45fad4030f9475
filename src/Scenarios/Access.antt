-- ===== src/Scenarios/Access.antt =====
-- Runs of the role changes and of the permission rules.
use voteit.Prelude.{ℕ, ◌≡◌, refl, true, false, some, [], ◌∷◌, arith, ◌<◌}
use voteit.Core.Roles.{
  has, add, remove, Role, role_eq, valid_roles, requires, participant, proposer,
}
use voteit.Core.Roles.Closure.{IsClosed}
use voteit.States.{MeetingState, AgendaState, PollState, published}
use voteit.Rules
use voteit.Rules.{
  change, has_perm, may_meeting, may_add_agenda_item, meeting_upcoming_ongoing, has_role,
}
use voteit.Rules.Content
use voteit.Rules.Content.{
  may_add_vote, may_change_poll, Button, may_add_reaction, may_retract_proposal,
  is_author_or_group_author_member,
}
use voteit.Rules.Safety.{archived_meeting_sealed}
use voteit.Scenarios.{anna, bo, meeting_in, item_in, motion}

abbrev rank : Role → ℕ
rank participant = 0
rank _ = 1

rank-descends : (x y : Role) → has y (requires x) ≡ true → rank y < rank x
rank-descends x y h = ground arith

rank-low : (x : Role) → rank x < 2
rank-low x = ground arith

requires-flat : (x y z : Role) → has y (requires x) ≡ true → has z (requires y) ≡ false
requires-flat x y z h = ground arith

known-roles : (x : Role) → has x (proposer ∷ participant ∷ []) ≡ true → has x valid_roles ≡ true
known-roles x h = ground arith

none-IsClosed : IsClosed valid_roles requires []
none-IsClosed = record { closed = λ r y h k. cc }

pair-IsClosed : IsClosed valid_roles requires (proposer ∷ participant ∷ [])
pair-IsClosed = record { closed = λ r y h k. ground arith }

add-example : add valid_roles requires 2 [] (proposer ∷ []) ≡ some (proposer ∷ participant ∷ [])
unfolding add
add-example = refl

remove-example :
    remove valid_roles requires (proposer ∷ participant ∷ []) (proposer ∷ [])
    ≡ some (participant ∷ [])
unfolding remove
remove-example = refl

abbrev thumb : Rules.Meeting → Button
thumb m = record { active = true; flag_mode = false; change_roles = participant ∷ []; meeting = m }

archived_meeting_sealed_example :
    has_perm anna (may_meeting change anna (meeting_in MeetingState.archived)) ≡ false
archived_meeting_sealed_example =
    (archived_meeting_sealed anna (meeting_in MeetingState.archived)
      (thumb (meeting_in MeetingState.archived)) 1 2 3 refl refl).0

abbrev poll_in : PollState → Content.Poll
poll_in s = record {
  state = s;
  meeting = some (meeting_in MeetingState.ongoing);
  agenda_item = some (item_in AgendaState.archived);
  voters = some (1 ∷ 2 ∷ []);
}

retract-example : may_retract_proposal bo (motion published (item_in AgendaState.ongoing)) ≡ true
unfolding may_retract_proposal
retract-example = refl
