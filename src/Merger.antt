-- ===== src/Merger.antt =====
-- One account that is merged into another: `UserMerger` of voteit/core/user_merger.py. Users, rows and
-- contexts are primary keys. The tables that refer to users are what `_meta.get_fields` gives, a list.
pub mod Tables
pub mod Run
pub mod Registers
pub mod Unique
pub mod Moved
pub mod Whole
pub mod RolesLeft
pub mod Dependents
pub mod Left
pub mod Orders
use voteit.Prelude.{
  ℕ, zero, suc, ◌+◌, Bool, true, false, not, ◌&&◌, ◌||◌, Option, none, some, List, [], ◌∷◌, ◌++◌,
  ◌==◌, if◌then◌else◌, is_some, is_none, member, remove, select, exists, length, map, get, keys,
  nat_eq,
}
use voteit.Text.{Text, str, split, join, comma, same_text}
use voteit.Text.Lines.{strip}

pub record User : Type 0 where
  pub pk : ℕ
  pub organisation : Option ℕ
  pub identity_id : Option ℕ
  pub is_active : Bool

pub data Refusal : Type 0 where
  same_user other_organisation no_organisation other_identity : Refusal

abbrev pub same_option : Option ℕ → Option ℕ → Bool
same_option none none = true
same_option (some a) (some b) = a == b
same_option _ _ = false

-- An empty `identity_id` is none.
unfoldable pub validate : Bool → User → User → Option Refusal
validate same_person source target =
    if source.pk == target.pk
    then some same_user
    else if not (same_option source.organisation target.organisation)
    then some other_organisation
    else if is_none source.organisation
    then some no_organisation
    else if same_person
    then none
    else if is_none source.identity_id || not (same_option source.identity_id target.identity_id)
    then some other_identity
    else none

-- What is noted in a log, by the table and the row.
pub data Entry : Type 0 where
  row_of table_of list_of register_of : ℕ → ℕ → Entry

pub record MergeLog : Type 0 where
  pub moved : List Entry
  pub skipped : List Entry
  pub merged_roles : List Entry
  pub deleted : ℕ

abbrev pub empty_log : MergeLog
empty_log = record { moved = []; skipped = []; merged_roles = []; deleted = 0 }

abbrev pub note_moved : Entry → MergeLog → MergeLog
note_moved e log = record log { moved = log.moved ++ e ∷ [] }

abbrev pub note_skipped : Entry → MergeLog → MergeLog
note_skipped e log = record log { skipped = log.skipped ++ e ∷ [] }

-- Roles of a user in a context; the type of roles is that of the context.
pub record RoleRow (R : Type 0) : Type 0 where
  pub user : ℕ
  pub context : ℕ
  pub assigned : List R

module _ {R : Type 0} where
  abbrev pub is_row : ℕ → ℕ → RoleRow R → Bool
  is_row user context r = r.user == user && r.context == context

  abbrev pub roles_in : ℕ → ℕ → List (RoleRow R) → Option (List R)
  roles_in user context [] = none
  roles_in user context (r ∷ rs) =
      if is_row user context r then some r.assigned else roles_in user context rs

  abbrev pub assigned_to : ℕ → ℕ → List (RoleRow R) → List R
  assigned_to user context rows = elim (roles_in user context rows) [
    | none ↦ []
    | some roles ↦ roles
  ]

  abbrev pub store_roles : ℕ → ℕ → List R → List (RoleRow R) → List (RoleRow R)
  store_roles user context roles [] =
      record { user = user; context = context; assigned = roles } ∷ []
  store_roles user context roles (r ∷ rs) =
      let rest = store_roles user context roles rs in
      if is_row user context r then record r { assigned = roles } ∷ rs else r ∷ rest

  abbrev pub note_roles : ℕ → ℕ → RoleRow R → List (RoleRow R) → MergeLog → MergeLog
  note_roles table target src rows log =
      if is_some (roles_in target src.context rows)
      then record log { merged_roles = log.merged_roles ++ row_of table src.context ∷ [] }
      else note_moved (row_of table src.context) log

-- `add_roles` takes the roles that are assigned and those to add; none is an exception.
module _ {R : Type 0} (add_roles : List R → List R → Option (List R)) where
  -- `src.context.add_roles(target, *src.assigned)`, then `src.delete()`
  abbrev pub merge_row : ℕ → ℕ → RoleRow R → List (RoleRow R) → Option (List (RoleRow R))
  merge_row source target src rows =
      elim (add_roles (assigned_to target src.context rows) src.assigned) [
        | none ↦ none
        | some roles ↦ some (
            select (λ r. not (is_row source src.context r))
              (store_roles target src.context roles rows))
      ]

  abbrev pub merge_rows :
      Bool
      → ℕ
      → ℕ
      → ℕ
      → List (RoleRow R)
      → List (RoleRow R)
      → MergeLog
      → Option (List (RoleRow R) × MergeLog)
  merge_rows dry_run table source target [] rows log = some (rows, log)
  merge_rows dry_run table source target (src ∷ srcs) rows log =
      elim (if dry_run then some rows else merge_row source target src rows) [
        | none ↦ none
        | some rows' ↦
            merge_rows dry_run table source target srcs rows' (note_roles table target src rows log)
      ]

  -- `_handle_meeting_roles` and `_handle_organisation_roles`
  unfoldable pub merge_roles :
      Bool → ℕ → ℕ → ℕ → List (RoleRow R) → MergeLog → Option (List (RoleRow R) × MergeLog)
  merge_roles dry_run table source target rows log =
      merge_rows dry_run table source target (select (λ r. r.user == source) rows) rows log

-- `voter_data` of a register
abbrev pub VoterData : Type 0
VoterData = List (ℕ × ℕ)

abbrev pub without : ℕ → VoterData → VoterData
without k [] = []
without k ((j, n) ∷ d) = let rest = without k d in if j == k then d else (j, n) ∷ rest

-- `new_data[tgt_key] = new_data.pop(src_key)`
unfoldable pub move_voter : ℕ → ℕ → VoterData → VoterData
move_voter source target data_of = elim (get source data_of) [
  | none ↦ data_of
  | some weight ↦ without source data_of ++ (target, weight) ∷ []
]

abbrev pub has_key : ℕ → VoterData → Bool
has_key k d = member k (keys d)

-- `_handle_electoral_registers`; a register is its number and its data
abbrev pub merge_register : Bool → ℕ → ℕ → ℕ → VoterData → VoterData
merge_register dry_run source target pk d =
    if has_key source d && not (has_key target d || dry_run) then move_voter source target d else d

abbrev pub note_register : ℕ → ℕ → ℕ → VoterData → MergeLog → MergeLog
note_register source target pk d log =
    if not (has_key source d)
    then log
    else if has_key target d
    then note_skipped (register_of 0 pk) log
    else note_moved (register_of 0 pk) log

abbrev pub merge_registers :
    Bool → ℕ → ℕ → List (ℕ × VoterData) → MergeLog → List (ℕ × VoterData) × MergeLog
merge_registers dry_run source target [] log = ([], log)
merge_registers dry_run source target ((pk, d) ∷ ers) log =
    let (rest, log') =
      merge_registers dry_run source target ers (note_register source target pk d log) in
    ((pk, merge_register dry_run source target pk d) ∷ rest, log')
