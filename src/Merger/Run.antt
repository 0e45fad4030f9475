-- ===== src/Merger/Run.antt =====
-- `UserMerger.run` of voteit/core/user_merger.py: the steps in their order, in one transaction.
use voteit.Prelude.{
  ℕ, zero, suc, ◌+◌, Bool, false, not, Option, none, some, List, [], ◌∷◌, ◌==◌, if◌then◌else◌,
  select, length, map, member, ◌&&◌, ◌||◌,
}
use voteit.Merger.{
  User, Refusal, validate, row_of, same_option, MergeLog, empty_log, note_moved, RoleRow,
  merge_roles, VoterData, merge_registers,
}
use voteit.Merger.Tables.{Row, move_tables, ListOrder, move_orders, move_members}

-- What refers to users: roles in meetings (`M`) and organisations (`O`), the users of active rows
-- with their meetings, registers, the other tables, the orders of speaker lists, and the fields with many
-- users.
pub record Database (M O : Type 0) : Type 0 where
  pub users : List User
  pub meeting_roles : List (RoleRow M)
  pub organisation_roles : List (RoleRow O)
  pub active_users : List (ℕ × ℕ)
  pub registers : List (ℕ × VoterData)
  pub tables : List (List Row)
  pub speaker_table : ℕ
  pub orders : List ListOrder
  pub fields : List (List (List ℕ))

pub record UserMerger : Type 0 where
  pub source : User
  pub target : User
  pub dry_run : Bool
  pub same_person : Bool

-- `failed` is an IntegrityError, or an exception of `add_roles`.
pub data Outcome : Type 0 where
  refused : Refusal → Outcome
  failed : Outcome
  done : MergeLog → Outcome

abbrev pub rows_at : ℕ → List (List Row) → List Row
rows_at n [] = []
rows_at zero (rows ∷ tables) = rows
rows_at (suc n) (rows ∷ tables) = rows_at n tables

-- the meetings in which the source has roles
abbrev pub meetings_of : {M : Type 0} → ℕ → List (RoleRow M) → List ℕ
meetings_of source rows = map (λ r. r.context) (select (λ r. r.user == source) rows)

-- The receivers of `pre_delete` for the roles of the source that are deleted: `remove_active_user` of
-- voteit/active/signals.py, `remove_group_memberships` of voteit/meeting/signals.py,
-- `cleanup_invites_when_user_removed_from_meeting` of voteit/invites/signals.py and
-- `remove_vote_transfers` of voteit/poll/signals.py. They read no roles, so that the meetings are taken
-- together.
abbrev pub remove_active_user : Bool → ℕ → List ℕ → List (ℕ × ℕ) → List (ℕ × ℕ)
remove_active_user dry_run source meetings users =
    if dry_run then users else select (λ a. not (a.0 == source && member a.1 meetings)) users

abbrev pub goes : ℕ → List ℕ → Row → Bool
goes source meetings r = elim r.meeting [
  | none ↦ false
  | some meeting ↦
      member meeting meetings && (r.user == source || same_option r.other (some source))
]

abbrev pub remove_dependents : Bool → ℕ → List ℕ → List (List Row) → List (List Row)
remove_dependents dry_run source meetings tables =
    if dry_run then tables else map (select (λ r. not (goes source meetings r))) tables

abbrev pub delete_active : Bool → ℕ → List (ℕ × ℕ) → MergeLog → List (ℕ × ℕ) × MergeLog
delete_active dry_run source users log =
    let found = length (select (λ a. a.0 == source) users) in
    (
      (if dry_run then users else select (λ a. not (a.0 == source)) users),
      (if found == 0 then log else record log { deleted = log.deleted + found }),
    )

abbrev pub deactivate : Bool → ℕ → List User → MergeLog → List User × MergeLog
deactivate dry_run source users log = (
  (if dry_run
      then users
      else map (λ (u : User). if u.pk == source then record u { is_active = false } else u) users),
  note_moved (row_of 0 source) log,
)

module _ {M O : Type 0} (add_meeting_roles : List M → List M → Option (List M))
    (add_organisation_roles : List O → List O → Option (List O)) where
  -- the steps from the registers on
  abbrev pub move_rest : UserMerger → Database M O → MergeLog → Option (Database M O × MergeLog)
  move_rest m db log =
      let source = m.source.pk in
      let target = m.target.pk in
      let (active, log1) = delete_active m.dry_run source db.active_users log in
      let (registers, log2) = merge_registers m.dry_run source target db.registers log1 in
      elim (move_tables m.dry_run 0 source target db.tables log2) [
        | none ↦ none
        | some (tables, log3) ↦
            let (orders, log4) =
              move_orders m.dry_run source target (rows_at db.speaker_table tables) db.orders
                log3 in
            let (fields, log5) = move_members m.dry_run 0 source target db.fields log4 in
            let (users, log6) = deactivate m.dry_run source db.users log5 in
            some (
              record db {
                users = users;
                active_users = active;
                registers = registers;
                tables = tables;
                orders = orders;
                fields = fields;
              },
              log6,
            )
      ]

  abbrev pub steps : UserMerger → Database M O → Option (Database M O × MergeLog)
  steps m db =
      let source = m.source.pk in
      let target = m.target.pk in
      elim (merge_roles add_meeting_roles m.dry_run 0 source target db.meeting_roles empty_log) [
        | none ↦ none
        | some (meeting, log) ↦
            elim (merge_roles add_organisation_roles m.dry_run 1 source target db.organisation_roles
              log) [
                | none ↦ none
                | some (organisation, log') ↦
                    let meetings = meetings_of source db.meeting_roles in
                    move_rest m
                      (record db {
                        meeting_roles = meeting;
                        organisation_roles = organisation;
                        active_users = remove_active_user m.dry_run source meetings db.active_users;
                        tables = remove_dependents m.dry_run source meetings db.tables;
                      })
                      log'
              ]
      ]

  -- the transaction: after an exception, and after a dry run, the database is as before
  unfoldable pub run : UserMerger → Database M O → Outcome × Database M O
  run m db = elim (validate m.same_person m.source m.target) [
    | some r ↦ (refused r, db)
    | none ↦ elim (steps m db) [
      | none ↦ (failed, db)
      | some (db', log) ↦ (done log, if m.dry_run then db else db')
    ]
  ]
