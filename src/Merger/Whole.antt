-- ===== src/Merger/Whole.antt =====
-- A table after a merge, and what a dry run says about it.
use voteit.Prelude.{
  ℕ, ◌≡◌, refl, sym, ap, ◌∙◌, Bool, true, false, not, ◌&&◌, ◌||◌, some, List, [], ◌∷◌, ◌==◌, ==_iff,
  if◌then◌else◌, member, distinct, exists, every, map, Bool-cases, inl, inr, arith,
}
use voteit.Merger.{MergeLog}
use voteit.Merger.Tables.{Row, shares, has_conflict, rows_of, move_table}
use voteit.Merger.Unique.{pks, clash, is_unique, absent-rows_of, rows_of-AllCoherent}
use voteit.Merger.Moved.{
  apart, is_picked, given_to, move_rows_moved, move_rows_noted, move_rows_dry,
}

exists-clash_far :
    (r : Row) (user : ℕ) (rows : List Row)
    → r.user ≡ user
    → exists (clash r) rows ≡ false
    → every (λ p. not (shares r.fields p.fields)) (rows_of user rows) ≡ true
exists-clash_far r user [] e h = refl
exists-clash_far r user (s ∷ rows) e h = ground (arith, exists-clash_far r user rows)

rows_of-apart :
    (source : ℕ) (rows : List Row) → is_unique rows ≡ true → apart (rows_of source rows) ≡ true
rows_of-apart source [] u = refl
rows_of-apart source (r ∷ rows) u = elim (Bool-cases (r.user == source)) [
  | inl his ↦ rw his (
      ground (
        arith,
        exists-clash_far r source rows ((==_iff r.user source).0 his),
        rows_of-apart source rows,
      ))
  | inr other ↦ rw other (rows_of-apart source rows (ground arith))
]

-- rows of the user that meet no conflict
abbrev pub moves : ℕ → ℕ → List Row → Row → Bool
moves source target rows r = r.user == source && not (has_conflict target r rows)

absent-is_picked :
    (target : ℕ) (table objs : List Row) (r : Row)
    → member r.pk (pks objs) ≡ false
    → is_picked target table objs r ≡ false
absent-is_picked target table [] r h = refl
absent-is_picked target table (o ∷ objs) r h = ground (arith, absent-is_picked target table objs r)

given_to-cons :
    (target : ℕ) (table : List Row) (o : Row) (objs rows : List Row)
    → member o.pk (pks rows) ≡ false
    → map (given_to target (is_picked target table (o ∷ objs))) rows
      ≡ map (given_to target (is_picked target table objs)) rows
given_to-cons target table o objs [] h = refl
given_to-cons target table o objs (r ∷ rows) h =
    let other : (o.pk == r.pk) ≡ false = ground arith in
    λ i.
      given_to target
        (λ r. (other i && not (has_conflict target o table)) || is_picked target table objs r) r
      ∷ given_to-cons target table o objs rows (ground arith) i

head_given :
    (target : ℕ) (r : Row) (b : Bool) (p : Row → Bool) (rows : List Row)
    → b ≡ p r
    → (if b then record r { user = target } else r) ∷ map (given_to target p) rows
      ≡ map (given_to target p) (r ∷ rows)
head_given target r b p rows e =
    λ i. (if e i then record r { user = target } else r) ∷ map (given_to target p) rows

picked_rows :
    (source target : ℕ) (table rows : List Row)
    → distinct (pks rows) ≡ true
    → map (given_to target (is_picked target table (rows_of source rows))) rows
      ≡ map (given_to target (moves source target table)) rows
picked_rows source target table [] d = refl
picked_rows source target table (r ∷ rows) d =
    let absent : member r.pk (pks rows) ≡ false = ground arith in
    let same : (r.pk == r.pk) ≡ true = ground arith in
    let gone =
      absent-is_picked target table (rows_of source rows) r
        (absent-rows_of source r.pk rows absent) in
    let rest = picked_rows source target table rows (ground arith) in
    let at_objs =
      λ (objs : List Row). map (given_to target (is_picked target table objs)) (r ∷ rows) in
    elim (Bool-cases (r.user == source)) [
      | inl his ↦
          let found : rows_of source (r ∷ rows) ≡ r ∷ rows_of source rows = rw his refl in
          ap at_objs found
          ∙ (λ i.
              (if (same i && not (has_conflict target r table)) || gone i
                then record r { user = target }
                else r)
              ∷ (given_to-cons target table r (rows_of source rows) rows absent ∙ rest) i)
          ∙ head_given target r (true && not (has_conflict target r table) || false)
              (moves source target table) rows (ground arith)
      | inr other ↦
          let found : rows_of source (r ∷ rows) ≡ rows_of source rows = rw other refl in
          ap at_objs found
          ∙ (λ i. (if gone i then record r { user = target } else r) ∷ rest i)
          ∙ head_given target r false (moves source target table) rows (rw other refl)
    ]

-- For a table that keeps its unique constraints and in which no key occurs twice: if the database takes
-- a merge, each row of the source that shares no value of a constraint by fields with a row that the
-- target had before goes to the target, and no other row changes.
pub move_table_lem :
    (table source target : ℕ) (rows rows' : List Row) (log log' : MergeLog)
    → distinct (pks rows) ≡ true
    → is_unique rows ≡ true
    → move_table false table source target rows log ≡ some (rows', log')
    → rows' ≡ map (given_to target (moves source target rows)) rows
unfolding move_table
move_table_lem table source target rows rows' log log' d u e =
    move_rows_moved table target (rows_of source rows) rows rows' log log'
      (rows_of-AllCoherent source rows d) (rows_of-apart source rows u) e
    ∙ picked_rows source target rows rows d

-- For a table that keeps its unique constraints and in which no key occurs twice: a dry run changes nothing
-- and notes what the merge notes, if the database takes it.
pub move_table_dry :
    (table source target : ℕ) (rows rows' : List Row) (log log' : MergeLog)
    → distinct (pks rows) ≡ true
    → is_unique rows ≡ true
    → move_table false table source target rows log ≡ some (rows', log')
    → move_table true table source target rows log ≡ some (rows, log')
unfolding move_table
move_table_dry table source target rows rows' log log' d u e =
    move_rows_dry table target (rows_of source rows) rows log
    ∙ ap (λ l. some (rows, l))
        (sym (
          move_rows_noted table target (rows_of source rows) rows rows' log log'
            (rows_of-AllCoherent source rows d) (rows_of-apart source rows u) e))
