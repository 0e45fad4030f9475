-- ===== src/Scenarios/Merging.antt =====
-- One account merged into another.
use voteit.Prelude.{
  ℕ, ◌≡◌, refl, true, false, Option, some, none, List, [], ◌∷◌, map, get, every, nat_eq,
  if◌then◌else◌,
}
use voteit.Core.Roles.{Role, role_eq, add, valid_roles, requires, proposer, participant, discusser}
use voteit.Merger.{
  User, RoleRow, MergeLog, empty_log, note_moved, note_skipped, row_of, table_of, list_of,
  register_of, validate, VoterData, merge_register, has_key, move_voter, merge_roles,
}
use voteit.Merger.Tables.{Row, ListOrder, move_table, replaced_order}
use voteit.Text.{str}
use voteit.Text.Lines.{strip, is_space}
use voteit.Merger.Run.{Database, done, run, meetings_of}
use voteit.Merger.Unique.{is_unique, move_table_taken}
use voteit.Merger.Moved.{given_to}
use voteit.Merger.Whole.{moves, move_table_lem, move_table_dry}
use voteit.Merger.Registers.{merge_register_lem, size, renamed}
use voteit.Merger.Dependents.{unbound}
use voteit.Merger.RolesLeft.{no_row}
use voteit.Merger.Left.{merging, absent, inactive, run_left}

-- 1 is merged into 2
abbrev row : ℕ → ℕ → ℕ → Row
row pk user value = record {
  pk = pk;
  user = user;
  fields = value ∷ [];
  expressions = none;
  meeting = none;
  other = none;
}

abbrev votes : List Row
votes = row 10 1 7 ∷ row 11 2 7 ∷ row 12 1 8 ∷ row 13 3 8 ∷ []

abbrev votes' : List Row
votes' = row 10 1 7 ∷ row 11 2 7 ∷ row 12 2 8 ∷ row 13 3 8 ∷ []

abbrev votes_log : MergeLog
votes_log = note_moved (row_of 0 12) (note_skipped (row_of 0 10) empty_log)

votes_merged : move_table false 0 1 2 votes empty_log ≡ some (votes', votes_log)
unfolding move_table
votes_merged = refl

move_table_lem_example : votes' ≡ map (given_to 2 (moves 1 2 votes)) votes
move_table_lem_example =
    move_table_lem 0 1 2 votes votes' empty_log votes_log refl refl votes_merged

move_table_dry_example : move_table true 0 1 2 votes empty_log ≡ some (votes, votes_log)
move_table_dry_example =
    move_table_dry 0 1 2 votes votes' empty_log votes_log refl refl votes_merged

move_table_taken_example :
    (t : List Row × MergeLog) × (move_table false 0 1 2 votes empty_log ≡ some t)
    × (is_unique t.0 ≡ true)
move_table_taken_example = move_table_taken 0 1 2 votes empty_log refl refl refl

-- Two speakers who wait in one list: the database refuses the merge.
abbrev waiting : ℕ → ℕ → Row
waiting pk user = record {
  pk = pk;
  user = user;
  fields = [];
  expressions = some 5;
  meeting = none;
  other = none;
}

waiting_twice : move_table false 0 1 2 (waiting 20 1 ∷ waiting 21 2 ∷ []) empty_log ≡ none
unfolding move_table
waiting_twice = refl

abbrev voters : VoterData
voters = (1, 3) ∷ (4, 2) ∷ []

merge_register_lem_example :
    (size (merge_register false 1 2 9 voters) ≡ size voters)
    × (get 2 (merge_register false 1 2 9 voters)
        ≡ (if has_key 2 voters then get 2 voters else renamed 1 2 voters 2))
merge_register_lem_example = merge_register_lem 1 2 9 voters 2 refl refl

abbrev person : ℕ → User
person pk = record { pk = pk; organisation = some 1; identity_id = some 77; is_active = true }

abbrev roles_of : ℕ → List Role → RoleRow Role
roles_of user roles = record { user = user; context = 3; assigned = roles }

abbrev add_roles : List Role → List Role → Option (List Role)
add_roles = add valid_roles requires 2

-- The source waits in a list where the target has spoken.
abbrev speaker : ℕ → ℕ → Option ℕ → Row
speaker pk user waits = record {
  pk = pk;
  user = user;
  fields = [];
  expressions = waits;
  meeting = none;
  other = none;
}

-- a membership of a group of the meeting
abbrev membership : ℕ → ℕ → ℕ → Row
membership pk user group = record {
  pk = pk;
  user = user;
  fields = group ∷ [];
  expressions = none;
  meeting = some 3;
  other = none;
}

abbrev list_order : List ℕ → ListOrder
list_order order = record { pk = 6; order = order; speakers = 20 ∷ 21 ∷ 22 ∷ [] }

abbrev before : Database Role Role
before = record {
  users = person 1 ∷ person 2 ∷ [];
  meeting_roles =
      roles_of 1 (proposer ∷ participant ∷ []) ∷ roles_of 2 (discusser ∷ participant ∷ []) ∷ [];
  organisation_roles = [];
  active_users = (1, 3) ∷ (1, 4) ∷ (2, 3) ∷ [];
  registers = (9, voters) ∷ [];
  tables =
      votes
      ∷ (speaker 20 1 (some 5) ∷ speaker 21 2 none ∷ speaker 22 3 (some 5) ∷ [])
      ∷ (membership 30 1 8 ∷ membership 31 3 8 ∷ [])
      ∷ [];
  speaker_table = 1;
  orders = list_order (49 ∷ 44 ∷ 51 ∷ []) ∷ [];
  fields = ((1 ∷ 3 ∷ []) ∷ []) ∷ [];
}

abbrev after : Database Role Role
after = record {
  users =
      record { pk = 1; organisation = some 1; identity_id = some 77; is_active = false }
      ∷ person 2
      ∷ [];
  meeting_roles = roles_of 2 (discusser ∷ participant ∷ proposer ∷ []) ∷ [];
  organisation_roles = [];
  active_users = (2, 3) ∷ [];
  registers = (9, (4, 2) ∷ (2, 3) ∷ []) ∷ [];
  tables =
      votes'
      ∷ (speaker 20 2 (some 5) ∷ speaker 21 2 none ∷ speaker 22 3 (some 5) ∷ [])
      ∷ (membership 31 3 8 ∷ [])
      ∷ [];
  speaker_table = 1;
  orders = list_order (50 ∷ 44 ∷ 51 ∷ []) ∷ [];
  fields = ((3 ∷ 2 ∷ []) ∷ []) ∷ [];
}

abbrev merge_log : MergeLog
merge_log = record {
  moved =
      register_of 0 9 ∷ row_of 0 12 ∷ row_of 1 20 ∷ list_of 0 6 ∷ table_of 0 1 ∷ row_of 0 1 ∷ [];
  skipped = row_of 0 10 ∷ [];
  merged_roles = row_of 0 3 ∷ [];
  deleted = 1;
}

merged :
    run add_roles add_roles (merging (person 1) (person 2) false) before ≡ (done merge_log, after)
unfolding run validate merge_roles move_table move_voter replaced_order strip is_space str add
merged = refl

run_left_example :
    (no_row 1 after.meeting_roles ≡ true)
    × (no_row 1 after.organisation_roles ≡ true)
    × (absent 1 after.active_users ≡ true)
    × (inactive 1 after.users ≡ true)
    × (every (unbound 1 (meetings_of 1 before.meeting_roles)) after.tables ≡ true)
run_left_example =
    run_left add_roles add_roles (person 1) (person 2) false before after merge_log merged
