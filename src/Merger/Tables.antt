-- ===== src/Merger/Tables.antt =====
-- The relations of a user: `_handle_generic_fk_relations`, `_handle_speaker_list_order` and
-- `_handle_generic_m2m_relations` of voteit/core/user_merger.py.
use voteit.Prelude.{
  ℕ, suc, Bool, false, not, ◌&&◌, ◌||◌, Option, none, some, List, [], ◌∷◌, ◌++◌, ◌==◌,
  if◌then◌else◌, member, remove, select, exists, length, map,
}
use voteit.Text.{Text, str, split, join, same_text}
use voteit.Text.Lines.{strip}
use voteit.Merger.{MergeLog, row_of, table_of, list_of, note_moved, note_skipped}

-- A row that refers to a user. `fields` has, for each unique constraint on the user that is declared by
-- the names of its fields, a number for the values of the other fields. `expressions` has such a number
-- for the constraint that is declared by expressions, if there is one and its condition holds:
-- `constraint.fields` is empty for it, so that the merger does not see it. `meeting` is the meeting of a
-- membership of a group, of an invite that is used and of a vote transfer, which go with the roles in it;
-- `other` is the other user of a transfer.
pub record Row : Type 0 where
  pub pk : ℕ
  pub user : ℕ
  pub fields : List ℕ
  pub expressions : Option ℕ
  pub meeting : Option ℕ
  pub other : Option ℕ

-- a constraint on which two rows have equal values
abbrev pub shares : List ℕ → List ℕ → Bool
shares [] ws = false
shares (v ∷ vs) [] = false
shares (v ∷ vs) (w ∷ ws) = v == w || shares vs ws

abbrev pub both_equal : Option ℕ → Option ℕ → Bool
both_equal (some a) (some b) = a == b
both_equal _ _ = false

-- `_has_conflict`
abbrev pub has_conflict : ℕ → Row → List Row → Bool
has_conflict target obj = exists (λ r. r.user == target && shares r.fields obj.fields)

-- what the database refuses, by either kind of constraint
abbrev pub is_refused : ℕ → Row → List Row → Bool
is_refused target obj = exists (λ r.
    r.user == target && (shares r.fields obj.fields || both_equal r.expressions obj.expressions))

-- `filter(pk=obj.pk).update(user=target)`
abbrev pub handed_over : ℕ → ℕ → Row → Row
handed_over pk target r = if r.pk == pk then record r { user = target } else r

abbrev pub set_user : ℕ → ℕ → List Row → List Row
set_user pk target = map (handed_over pk target)

-- One object; none is an IntegrityError. An object that was fetched does not change before its turn.
abbrev pub move_row : Bool → ℕ → ℕ → Row → List Row → MergeLog → Option (List Row × MergeLog)
move_row dry_run table target obj rows log =
    if has_conflict target obj rows
    then some (rows, note_skipped (row_of table obj.pk) log)
    else if dry_run
    then some (rows, note_moved (row_of table obj.pk) log)
    else if is_refused target obj rows
    then none
    else some (set_user obj.pk target rows, note_moved (row_of table obj.pk) log)

abbrev pub move_rows : Bool → ℕ → ℕ → List Row → List Row → MergeLog → Option (List Row × MergeLog)
move_rows dry_run table target [] rows log = some (rows, log)
move_rows dry_run table target (obj ∷ objs) rows log =
    elim (move_row dry_run table target obj rows log) [
      | none ↦ none
      | some (rows', log') ↦ move_rows dry_run table target objs rows' log'
    ]

abbrev pub rows_of : ℕ → List Row → List Row
rows_of user = select (λ r. r.user == user)

unfoldable pub move_table : Bool → ℕ → ℕ → ℕ → List Row → MergeLog → Option (List Row × MergeLog)
move_table dry_run table source target rows log =
    move_rows dry_run table target (rows_of source rows) rows log

abbrev pub move_tables :
    Bool → ℕ → ℕ → ℕ → List (List Row) → MergeLog → Option (List (List Row) × MergeLog)
move_tables dry_run table source target [] log = some ([], log)
move_tables dry_run table source target (rows ∷ tables) log =
    elim (move_table dry_run table source target rows log) [
      | none ↦ none
      | some (rows', log') ↦ elim (move_tables dry_run (suc table) source target tables log') [
        | none ↦ none
        | some (tables', log'') ↦ some (rows' ∷ tables', log'')
      ]
    ]

-- the order of a speaker list as text, with the keys of its speakers
pub record ListOrder : Type 0 where
  pub pk : ℕ
  pub order : Text
  pub speakers : List ℕ

-- The filter for lists whose text contains the number of the source is left out: the text of any other
-- list is not changed.
unfoldable pub replaced_order : ℕ → ℕ → Text → Text
replaced_order source target order =
    join
      (map (λ part. if same_text (strip part) (str source) then str target else part) (split order))

-- a speaker of the target is in the list
abbrev pub is_affected : ℕ → List Row → ListOrder → Bool
is_affected target rows l = exists (λ r. r.user == target && member r.pk l.speakers) rows

abbrev pub move_order : Bool → ℕ → ℕ → List Row → ListOrder → ListOrder
move_order dry_run source target rows l =
    if is_affected target rows l && not dry_run
    then record l { order = replaced_order source target l.order }
    else l

abbrev pub note_order : ℕ → ℕ → List Row → ListOrder → MergeLog → MergeLog
note_order source target rows l log =
    if is_affected target rows l && not (same_text (replaced_order source target l.order) l.order)
    then note_moved (list_of 0 l.pk) log
    else log

-- `rows` are the speakers, as the tables are when the orders are looked at
abbrev pub move_orders :
    Bool → ℕ → ℕ → List Row → List ListOrder → MergeLog → List ListOrder × MergeLog
move_orders dry_run source target rows [] log = ([], log)
move_orders dry_run source target rows (l ∷ ls) log =
    let (rest, log') =
      move_orders dry_run source target rows ls (note_order source target rows l log) in
    (move_order dry_run source target rows l ∷ rest, log')

-- the users of an object, by a many-to-many field: `add(target)`, then `remove(source)`
abbrev pub move_member : ℕ → ℕ → List ℕ → List ℕ
move_member source target users =
    if member source users
    then remove source (if member target users then users else users ++ target ∷ [])
    else users

abbrev move_field : Bool → ℕ → ℕ → List (List ℕ) → List (List ℕ)
move_field dry_run source target objects =
    if dry_run then objects else map (move_member source target) objects

abbrev pub note_field : ℕ → ℕ → List (List ℕ) → MergeLog → MergeLog
note_field table source objects log =
    if exists (member source) objects
    then note_moved (table_of table (length (select (member source) objects))) log
    else log

abbrev pub move_members :
    Bool → ℕ → ℕ → ℕ → List (List (List ℕ)) → MergeLog → List (List (List ℕ)) × MergeLog
move_members dry_run table source target [] log = ([], log)
move_members dry_run table source target (objects ∷ fields) log =
    let (rest, log') =
      move_members dry_run (suc table) source target fields (note_field table source objects log) in
    (move_field dry_run source target objects ∷ rest, log')
