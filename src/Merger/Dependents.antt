-- ===== src/Merger/Dependents.antt =====
-- The rows that go with the roles of the source in a meeting.
use voteit.Prelude.{
  ℕ, suc, ◌≡◌, refl, sym, ap, ◌∙◌, Bool, true, false, not, ◌&&◌, none, some, List, [], ◌∷◌, ◌==◌,
  select, every, member, Bool-cases, Option-cases, inl, inr, arith,
}
use voteit.Merger.{MergeLog}
use voteit.Merger.Tables.{
  Row, has_conflict, is_refused, set_user, move_rows, rows_of, move_table, move_tables,
}
use voteit.Merger.Run.{goes, remove_dependents}

abbrev is_bound : List ℕ → Row → Bool
is_bound meetings r = elim r.meeting [ none ↦ false | some meeting ↦ member meeting meetings ]

-- no row of the user depends on his roles in one of the meetings
abbrev pub unbound : ℕ → List ℕ → List Row → Bool
unbound source meetings = every (λ r. not (r.user == source && is_bound meetings r))

select-unbound :
    (source : ℕ) (meetings : List ℕ) (rows : List Row)
    → unbound source meetings (select (λ r. not (goes source meetings r)) rows) ≡ true
select-unbound source meetings [] = refl
select-unbound source meetings (r ∷ rows) = elim (Option-cases r.meeting) [
  | inl apart ↦ rw apart (ground (arith, select-unbound source meetings rows))
  | inr (m, bound) ↦ rw bound (ground (arith, select-unbound source meetings rows))
]

pub remove_dependents-unbound :
    (source : ℕ) (meetings : List ℕ) (tables : List (List Row))
    → every (unbound source meetings) (remove_dependents false source meetings tables) ≡ true
remove_dependents-unbound source meetings [] = refl
remove_dependents-unbound source meetings (rows ∷ tables) =
    rw (select-unbound source meetings rows) (remove_dependents-unbound source meetings tables)

set_user-unbound :
    (source target pk : ℕ) (meetings : List ℕ) (rows : List Row)
    → (target == source) ≡ false
    → unbound source meetings rows ≡ true
    → unbound source meetings (set_user pk target rows) ≡ true
set_user-unbound source target pk meetings [] t h = refl
set_user-unbound source target pk meetings (r ∷ rows) t h = elim (Bool-cases (r.pk == pk)) [
  | inl same ↦ rw (same, t) (ground (arith, set_user-unbound source target pk meetings rows))
  | inr other ↦ rw other (ground (arith, set_user-unbound source target pk meetings rows))
]

move_rows-unbound :
    (source target table : ℕ) (meetings : List ℕ) (objs rows rows' : List Row) (log log' : MergeLog)
    → (target == source) ≡ false
    → unbound source meetings rows ≡ true
    → move_rows false table target objs rows log ≡ some (rows', log')
    → unbound source meetings rows' ≡ true
move_rows-unbound source target table meetings [] rows rows' log log' t h e =
    let same : rows ≡ rows' = cc in ap (unbound source meetings) (sym same) ∙ h
move_rows-unbound source target table meetings (o ∷ os) rows rows' log log' t h e =
    elim (Bool-cases (has_conflict target o rows)) [
      | inl conflict ↦
          move_rows-unbound source target table meetings os rows rows' _ log' t h
            (rw (conflict, move_rows) at e)
      | inr free ↦ elim (Bool-cases (is_refused target o rows)) [
        | inl refused ↦
            let stuck : none ≡ some (rows', log') = rw (free, refused, move_rows) at e in cc
        | inr fine ↦
            move_rows-unbound source target table meetings os (set_user o.pk target rows) rows' _
              log' t (set_user-unbound source target o.pk meetings rows t h)
              (rw (free, fine, move_rows) at e)
      ]
    ]

pub move_tables-unbound :
    (source target table : ℕ) (meetings : List ℕ) (tables tables' : List (List Row))
    (log log' : MergeLog)
    → (target == source) ≡ false
    → every (unbound source meetings) tables ≡ true
    → move_tables false table source target tables log ≡ some (tables', log')
    → every (unbound source meetings) tables' ≡ true
unfolding move_table
move_tables-unbound source target table meetings [] tables' log log' t h e =
    let same : [] ≡ tables' = cc in ap (every (unbound source meetings)) (sym same)
move_tables-unbound source target table meetings (rows ∷ tables) tables' log log' t h e =
    elim (Option-cases (move_table false table source target rows log)) [
      | inl broken ↦ let stuck : none ≡ some (tables', log') = rw (broken, move_tables) at e in cc
      | inr (moved, m) ↦
          elim (Option-cases (move_tables false (suc table) source target tables moved.1)) [
            | inl broken ↦
                let stuck : none ≡ some (tables', log') = rw (m, broken, move_tables) at e in cc
            | inr (rest, n) ↦
                let whole : some (moved.0 ∷ rest.0, rest.1) ≡ some (tables', log') =
                  rw (m, n, move_tables) at e in
                let same : moved.0 ∷ rest.0 ≡ tables' = cc in
                let first =
                  move_rows-unbound source target table meetings (rows_of source rows) rows moved.0
                    log moved.1 t (ground arith) m in
                let others =
                  move_tables-unbound source target (suc table) meetings tables rest.0 moved.1
                    rest.1 t (ground arith) n in
                ap (every (unbound source meetings)) (sym same) ∙ rw first others
          ]
    ]
