-- ===== src/Merger/Unique.antt =====
-- Moving the rows of a table: their unique constraints hold afterwards, and each row moves or stays as
-- the table was at the start.
use voteit.Prelude.{
  ℕ, ◌≡◌, refl, sym, ap, ◌∙◌, Bool, true, false, not, ◌&&◌, ◌||◌, Option, none, some, List, [], ◌∷◌,
  ◌==◌, ==_iff, member, distinct, exists, every, is_none, Bool-cases, inl, inr, arith,
}
use voteit.Merger.{MergeLog, row_of, note_moved, note_skipped}
use voteit.Merger.Tables.{
  Row, shares, both_equal, has_conflict, is_refused, set_user, move_rows, rows_of, move_table,
}

-- What the constraints forbid: two rows of one user with equal values.
abbrev pub clash : Row → Row → Bool
clash r s = r.user == s.user && (shares r.fields s.fields || both_equal r.expressions s.expressions)

abbrev pub is_unique : List Row → Bool
is_unique [] = true
is_unique (r ∷ rs) = not (exists (clash r) rs) && is_unique rs

abbrev pub pks : List Row → List ℕ
pks [] = []
pks (r ∷ rs) = r.pk ∷ pks rs

shares_comm : (vs ws : List ℕ) → shares vs ws ≡ shares ws vs
shares_comm [] [] = refl
shares_comm [] (w ∷ ws) = refl
shares_comm (v ∷ vs) [] = refl
shares_comm (v ∷ vs) (w ∷ ws) = ground (arith, shares_comm vs ws)

both_equal_comm : (v w : Option ℕ) → both_equal v w ≡ both_equal w v
both_equal_comm none none = refl
both_equal_comm none (some w) = refl
both_equal_comm (some v) none = refl
both_equal_comm (some v) (some w) = ground arith

both_equal_none : (v w : Option ℕ) → is_none w ≡ true → both_equal v w ≡ false
both_equal_none none w h = refl
both_equal_none (some v) none h = refl
both_equal_none (some v) (some w) h = absurd (ground arith)

-- A row that was read is still in the table with its values, whoever its user is.
abbrev pub Coherent : Row → List Row → Type 0
Coherent obj [] = Unit
Coherent obj (r ∷ rs) =
    (r.pk ≡ obj.pk → (r.fields ≡ obj.fields) × (r.expressions ≡ obj.expressions)) × Coherent obj rs

set_user-Coherent :
    (obj : Row) (pk target : ℕ) (rows : List Row)
    → Coherent obj rows
    → Coherent obj (set_user pk target rows)
set_user-Coherent obj pk target [] h = tt
set_user-Coherent obj pk target (r ∷ rs) h = elim (Bool-cases (r.pk == pk)) [
  | inl same ↦ rw same (h.0, set_user-Coherent obj pk target rs h.1)
  | inr other ↦ rw other (h.0, set_user-Coherent obj pk target rs h.1)
]

abbrev pub AllCoherent : List Row → List Row → Type 0
AllCoherent [] rows = Unit
AllCoherent (o ∷ os) rows = Coherent o rows × AllCoherent os rows

pub set_user-AllCoherent :
    (objs : List Row) (pk target : ℕ) (rows : List Row)
    → AllCoherent objs rows
    → AllCoherent objs (set_user pk target rows)
set_user-AllCoherent [] pk target rows h = tt
set_user-AllCoherent (o ∷ os) pk target rows h =
    (set_user-Coherent o pk target rows h.0, set_user-AllCoherent os pk target rows h.1)

absent-Coherent : (o : Row) (rows : List Row) → member o.pk (pks rows) ≡ false → Coherent o rows
absent-Coherent o [] h = tt
absent-Coherent o (r ∷ rs) h = (λ e. absurd (ground arith), absent-Coherent o rs (ground arith))

absent-AllCoherent :
    (objs : List Row) (r : Row) (rows : List Row)
    → member r.pk (pks objs) ≡ false
    → AllCoherent objs rows
    → AllCoherent objs (r ∷ rows)
absent-AllCoherent [] r rows m h = tt
absent-AllCoherent (o ∷ os) r rows m h =
    ((λ e. absurd (ground arith), h.0), absent-AllCoherent os r rows (ground arith) h.1)

pub absent-rows_of :
    (source pk : ℕ) (rows : List Row)
    → member pk (pks rows) ≡ false
    → member pk (pks (rows_of source rows)) ≡ false
absent-rows_of source pk [] h = refl
absent-rows_of source pk (r ∷ rs) h = ground (arith, absent-rows_of source pk rs)

pub rows_of-AllCoherent :
    (source : ℕ) (rows : List Row)
    → distinct (pks rows) ≡ true
    → AllCoherent (rows_of source rows) rows
rows_of-AllCoherent source [] d = tt
rows_of-AllCoherent source (r ∷ rs) d =
    let absent : member r.pk (pks rs) ≡ false = ground arith in
    let rest =
      absent-AllCoherent (rows_of source rs) r rs (absent-rows_of source r.pk rs absent)
        (rows_of-AllCoherent source rs (ground arith)) in
    elim (Bool-cases (r.user == source)) [
      | inl his ↦ rw his ((λ e. (refl, refl), absent-Coherent r rs absent), rest)
      | inr other ↦ rw other rest
    ]

pks-set_user : (pk target : ℕ) (rows : List Row) → pks (set_user pk target rows) ≡ pks rows
pks-set_user pk target [] = refl
pks-set_user pk target (r ∷ rs) = ground (arith, pks-set_user pk target rs)

-- a row without the key that is moved
exists-clash_other :
    (obj : Row) (target : ℕ) (r : Row) (rs : List Row)
    → Coherent obj rs
    → (r.user == target && (shares r.fields obj.fields || both_equal r.expressions obj.expressions))
      ≡ false
    → exists (clash r) rs ≡ false
    → exists (clash r) (set_user obj.pk target rs) ≡ false
exists-clash_other obj target r [] h k l = refl
exists-clash_other obj target r (s ∷ rs) h k l = elim (Bool-cases (s.pk == obj.pk)) [
  | inl same ↦
      let (f, e) = h.0 ((==_iff s.pk obj.pk).0 same) in
      rw (same, f, e) (ground (arith, exists-clash_other obj target r rs h.1))
  | inr other ↦ rw other (ground (arith, exists-clash_other obj target r rs h.1))
]

-- the row that is moved, before rows without its key
exists-clash_moved :
    (obj : Row) (target : ℕ) (rs : List Row)
    → member obj.pk (pks rs) ≡ false
    → has_conflict target obj rs ≡ false
    → is_refused target obj rs ≡ false
    → exists (clash (record obj { user = target })) (set_user obj.pk target rs) ≡ false
exists-clash_moved obj target [] m h k = refl
exists-clash_moved obj target (s ∷ rs) m h k = ground (
  arith,
  shares_comm obj.fields s.fields,
  both_equal_comm obj.expressions s.expressions,
  exists-clash_moved obj target rs,
)

set_user-is_unique :
    (obj : Row) (target : ℕ) (rows : List Row)
    → distinct (pks rows) ≡ true
    → Coherent obj rows
    → has_conflict target obj rows ≡ false
    → is_refused target obj rows ≡ false
    → is_unique rows ≡ true
    → is_unique (set_user obj.pk target rows) ≡ true
set_user-is_unique obj target [] d h k l u = refl
set_user-is_unique obj target (r ∷ rs) d h k l u = elim (Bool-cases (r.pk == obj.pk)) [
  | inl same ↦
      let (f, e) = h.0 ((==_iff r.pk obj.pk).0 same) in
      rw same
        (ground (arith, exists-clash_moved r target rs, set_user-is_unique obj target rs, h.1))
  | inr other ↦ rw other (
      ground (arith, exists-clash_other obj target r rs h.1, set_user-is_unique obj target rs, h.1))
]

move_rows-is_unique :
    (table target : ℕ) (objs rows rows' : List Row) (log log' : MergeLog)
    → distinct (pks rows) ≡ true
    → AllCoherent objs rows
    → is_unique rows ≡ true
    → move_rows false table target objs rows log ≡ some (rows', log')
    → is_unique rows' ≡ true
move_rows-is_unique table target [] rows rows' log log' d h u e =
    let same : rows ≡ rows' = cc in ap is_unique (sym same) ∙ u
move_rows-is_unique table target (o ∷ os) rows rows' log log' d h u e =
    elim (Bool-cases (has_conflict target o rows)) [
      | inl conflict ↦
          move_rows-is_unique table target os rows rows' _ log' d h.1 u
            (rw (conflict, move_rows) at e)
      | inr free ↦ elim (Bool-cases (is_refused target o rows)) [
        | inl refused ↦
            let stuck : none ≡ some (rows', log') = rw (free, refused, move_rows) at e in cc
        | inr fine ↦
            move_rows-is_unique table target os (set_user o.pk target rows) rows' _ log'
              (ap distinct (pks-set_user o.pk target rows) ∙ d)
              (set_user-AllCoherent os o.pk target rows h.1)
              (set_user-is_unique o target rows d h.0 free fine u) (rw (free, fine, move_rows) at e)
      ]
    ]

move_table-is_unique :
    (table source target : ℕ) (rows rows' : List Row) (log log' : MergeLog)
    → distinct (pks rows) ≡ true
    → is_unique rows ≡ true
    → move_table false table source target rows log ≡ some (rows', log')
    → is_unique rows' ≡ true
unfolding move_table
move_table-is_unique table source target rows rows' log log' d u e =
    move_rows-is_unique table target (rows_of source rows) rows rows' log log' d
      (rows_of-AllCoherent source rows d) u e

-- no constraint by expressions holds of the rows
abbrev pub only_fields : List Row → Bool
only_fields = every (λ (r : Row). is_none r.expressions)

not_refused :
    (target : ℕ) (obj : Row) (rows : List Row)
    → is_none obj.expressions ≡ true
    → has_conflict target obj rows ≡ false
    → is_refused target obj rows ≡ false
not_refused target obj [] p h = refl
not_refused target obj (r ∷ rs) p h =
    let apart : both_equal r.expressions obj.expressions ≡ false =
      both_equal_none r.expressions obj.expressions p in
    ground (arith, not_refused target obj rs)

move_rows_taken :
    (table target : ℕ) (objs rows : List Row) (log : MergeLog)
    → only_fields objs ≡ true
    → (t : List Row × MergeLog) × (move_rows false table target objs rows log ≡ some t)
move_rows_taken table target [] rows log p = ((rows, log), refl)
move_rows_taken table target (o ∷ os) rows log p = elim (Bool-cases (has_conflict target o rows)) [
  | inl conflict ↦
      let (t, taken) =
        move_rows_taken table target os rows (note_skipped (row_of table o.pk) log)
          (ground arith) in
      (t, rw (conflict, move_rows) taken)
  | inr free ↦
      let fine = not_refused target o rows (ground arith) free in
      let (t, taken) =
        move_rows_taken table target os (set_user o.pk target rows)
          (note_moved (row_of table o.pk) log) (ground arith) in
      (t, rw (free, fine, move_rows) taken)
]

-- Where the table keeps its unique constraints, no key occurs twice, and no constraint that is declared by
-- expressions holds of a row of the source: the rows of the source are merged without an IntegrityError,
-- since a row that a constraint forbids is skipped, and the table keeps its constraints.
pub move_table_taken :
    (table source target : ℕ) (rows : List Row) (log : MergeLog)
    → distinct (pks rows) ≡ true
    → is_unique rows ≡ true
    → only_fields (rows_of source rows) ≡ true
    → (t : List Row × MergeLog) × (move_table false table source target rows log ≡ some t)
      × (is_unique t.0 ≡ true)
unfolding move_table
move_table_taken table source target rows log d u p =
    let (t, taken) = move_rows_taken table target (rows_of source rows) rows log p in
    (t, taken, move_table-is_unique table source target rows t.0 log t.1 d u taken)
