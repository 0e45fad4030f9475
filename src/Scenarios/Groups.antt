-- ===== src/Scenarios/Groups.antt =====
-- Runs of invites, groups, dialects and ranked ballots.
use voteit.Prelude.{
  ℕ, ◌⊎◌, ◌||◌, Option, is_none, ◌≡◌, ◌≢◌, refl, true, false, none, some, List, [], ◌∷◌,
  if◌then◌else◌, exists, ◌==◌, distinct,
}
use voteit.Core.Roles.{role_eq, has, participant, proposer, discusser}
use voteit.Poll.Methods.Ranked.{StvResult, finalize_stv_result}
use voteit.Poll.Methods.Ranked.Ballots.{stored, is_blank, Decides, finalize_stv_result_lem}
use voteit.Invites.{
  MeetingInvite, open_state, update_assigned_roles, GroupAnnotation, Pair, take_annotation,
  take_annotations,
}
use voteit.Core.Roles.Rows.{assigned_of, add_roles}
use voteit.Groups.{role_added}
use voteit.Invites
use voteit.Invites.Sync.{update_assigned_roles_lem}
use voteit.Groups.Dialects.{
  Dialect, loaded, cyclic, out_of_fuel, get_dependent_dialects, Dependent,
  get_dependent_dialects_ends, get_dependent_dialects_lem,
}
use voteit.Groups.Dialects.Merging.{
  Data, extend, update, get_merged_handler, get_merged_handler_lem,
}

abbrev first_choice : List (List ℕ × ℕ) → Option StvResult
first_choice [] = none
first_choice (([], n) ∷ bs) = first_choice bs
first_choice ((c ∷ cs, n) ∷ bs) =
    some (record { winners = c ∷ []; candidates = 1 ∷ 2 ∷ []; complete = true })

abbrev cast : List (List ℕ × ℕ)
cast = (2 ∷ 1 ∷ [], 4) ∷ (1 ∷ [], 1) ∷ []

finalize_stv_result_lem_example :
    (exists is_blank cast || is_none (first_choice cast) ≡ true)
      × (finalize_stv_result first_choice (stored cast) ≡ none)
    ⊎ ((exists is_blank cast ≡ false)
        × ((r : StvResult) × (first_choice cast ≡ some r)
            × Decides r (finalize_stv_result first_choice (stored cast))))
finalize_stv_result_lem_example = finalize_stv_result_lem first_choice cast

update_assigned_roles_lem_example :
    has proposer (
      assigned_of (
        update_assigned_roles []
          (participant ∷ proposer ∷ [])
          (some (participant ∷ discusser ∷ []))))
    ≡ (if has proposer []
        then has proposer (participant ∷ discusser ∷ [])
        else has proposer (participant ∷ proposer ∷ []))
update_assigned_roles_lem_example =
    update_assigned_roles_lem [] (participant ∷ proposer ∷ []) (some (participant ∷ discusser ∷ []))
      proposer refl refl

-- The annotation makes the user a member with a group role that gives proposer.
abbrev chairs : GroupAnnotation
chairs = record { old_role = none; group_role = some (3, proposer ∷ []); others = [] }

abbrev sent : Pair
sent = record {
  invite = record {
    state = open_state;
    created = 1;
    modified = 1;
    used_at = none;
    used_by = none;
    roles = discusser ∷ [];
  };
  annotations = chairs ∷ [];
  group_roles_active = true;
  row = none;
}

abbrev used : Pair
unfolding add_roles role_added
used = record {
  invite = record (sent.invite) { state = Invites.accepted; used_at = some 5; used_by = some 2 };
  annotations = [];
  group_roles_active = true;
  row = role_added (proposer ∷ []) (add_roles (discusser ∷ []) none);
}

abbrev chain : List Dialect
chain =
    record { name = 1; requires = 2 ∷ 3 ∷ [] }
    ∷ record { name = 2; requires = [] }
    ∷ record { name = 3; requires = [] }
    ∷ []

get_dependent_dialects_ends_example : get_dependent_dialects chain 1 ≢ out_of_fuel
get_dependent_dialects_ends_example = get_dependent_dialects_ends chain 1

chain_run : get_dependent_dialects chain 1 ≡ loaded chain
unfolding get_dependent_dialects
chain_run = refl

-- two ways to one requirement
diamond_run :
    get_dependent_dialects
      (record { name = 1; requires = 2 ∷ 3 ∷ [] }
        ∷ record { name = 2; requires = 4 ∷ [] }
        ∷ record { name = 3; requires = 4 ∷ [] }
        ∷ record { name = 4; requires = [] }
        ∷ [])
      1
    ≡ cyclic 4
unfolding get_dependent_dialects
diamond_run = refl

get_dependent_dialects_lem_example : Dependent 1 chain
get_dependent_dialects_lem_example = get_dependent_dialects_lem chain 1 chain chain_run

-- what the files of the chain hold: the list 0, and the value 1
abbrev contents : ℕ → Data
contents n = record {
  name = n;
  lists = λ k. (if k == 0 then n ∷ 7 ∷ [] else []);
  values = λ k. (if k == n then some n else none);
}

abbrev whole : Data
whole = record {
  name = 1;
  lists = λ k.
      extend (extend (extend [] ((contents 3).lists k)) ((contents 2).lists k))
        ((contents 1).lists k);
  values = λ k.
      update (update (update none ((contents 3).values k)) ((contents 2).values k))
        ((contents 1).values k);
}

merged_run : get_merged_handler chain contents 1 ≡ some whole
unfolding get_merged_handler get_dependent_dialects
merged_run = refl

whole_run : whole.lists 0 ≡ 3 ∷ 7 ∷ 2 ∷ 1 ∷ []
whole_run = refl

get_merged_handler_lem_example : distinct (whole.lists 0) ≡ true
get_merged_handler_lem_example = (get_merged_handler_lem chain contents 1 0 7 whole merged_run).3
