-- ===== src/Merger/Moved.antt =====
-- Which rows of a table move to the target.
use voteit.Prelude.{
  ℕ, ◌≡◌, refl, sym, ap, ◌∙◌, Bool, true, false, not, ◌&&◌, ◌||◌, none, some, List, [], ◌∷◌, ◌==◌,
  ==_iff, if◌then◌else◌, exists, every, map, Bool-cases, inl, inr, arith,
}
use voteit.Merger.{MergeLog, row_of, note_moved, note_skipped}
use voteit.Merger.Tables.{Row, shares, has_conflict, is_refused, handed_over, set_user, move_rows}
use voteit.Merger.Unique.{Coherent, AllCoherent, set_user-AllCoherent}

-- rows without equal values on any constraint by fields
abbrev pub apart : List Row → Bool
apart [] = true
apart (o ∷ os) = every (λ p. not (shares o.fields p.fields)) os && apart os

has_conflict-set_user :
    (o p : Row) (target : ℕ) (rows : List Row)
    → Coherent o rows
    → shares o.fields p.fields ≡ false
    → has_conflict target p (set_user o.pk target rows) ≡ has_conflict target p rows
has_conflict-set_user o p target [] h k = refl
has_conflict-set_user o p target (r ∷ rs) h k = elim (Bool-cases (r.pk == o.pk)) [
  | inl same ↦
      let (f, e) = h.0 ((==_iff r.pk o.pk).0 same) in
      rw (same, f, k) (ground (arith, has_conflict-set_user o p target rs h.1))
  | inr other ↦ rw other (ground (arith, has_conflict-set_user o p target rs h.1))
]

-- the objects that move, as the table is
abbrev pub is_picked : ℕ → List Row → List Row → Row → Bool
is_picked target rows objs r = exists (λ o. o.pk == r.pk && not (has_conflict target o rows)) objs

abbrev pub given_to : ℕ → (Row → Bool) → Row → Row
given_to target picked r = if picked r then record r { user = target } else r

is_picked-set_user :
    (o : Row) (os rows : List Row) (target : ℕ) (r : Row)
    → Coherent o rows
    → every (λ p. not (shares o.fields p.fields)) os ≡ true
    → is_picked target (set_user o.pk target rows) os r ≡ is_picked target rows os r
is_picked-set_user o [] rows target r h k = refl
is_picked-set_user o (p ∷ os) rows target r h k =
    let same : shares o.fields p.fields ≡ false = ground arith in
    rw (has_conflict-set_user o p target rows h same) (
      ap (λ b. (p.pk == r.pk && not (has_conflict target p rows)) || b)
        (is_picked-set_user o os rows target r h (ground arith)))

map-pointwise :
    {A B : Type 0} (f g : A → B) (xs : List A) → ((x : A) → f x ≡ g x) → map f xs ≡ map g xs
map-pointwise f g [] h = refl
map-pointwise f g (x ∷ xs) h = λ i. h x i ∷ map-pointwise f g xs h i

map-fused :
    {A : Type 0} (f g h : A → A) (xs : List A)
    → ((x : A) → g (f x) ≡ h x)
    → map g (map f xs) ≡ map h xs
map-fused f g h [] e = refl
map-fused f g h (x ∷ xs) e = λ i. e x i ∷ map-fused f g h xs e i

map-identity : (target : ℕ) (rows : List Row) → map (given_to target (λ r. false)) rows ≡ rows
map-identity target [] = refl
map-identity target (r ∷ rs) = λ i. r ∷ map-identity target rs i

is_picked-handed_over :
    (pk target : ℕ) (rows os : List Row) (r : Row)
    → is_picked target rows os (handed_over pk target r) ≡ is_picked target rows os r
is_picked-handed_over pk target rows [] r = refl
is_picked-handed_over pk target rows (o ∷ os) r =
    ground (arith, is_picked-handed_over pk target rows os r)

given_to-handed_over :
    (pk target : ℕ) (p q : Row → Bool) (r : Row)
    → ((s : Row) → p s ≡ q s)
    → (q (handed_over pk target r) ≡ q r)
    → given_to target p (handed_over pk target r) ≡ given_to target (λ s. pk == s.pk || q s) r
given_to-handed_over pk target p q r h k = ground (arith, h (handed_over pk target r))

pub move_rows_moved :
    (table target : ℕ) (objs rows rows' : List Row) (log log' : MergeLog)
    → AllCoherent objs rows
    → apart objs ≡ true
    → move_rows false table target objs rows log ≡ some (rows', log')
    → rows' ≡ map (given_to target (is_picked target rows objs)) rows
move_rows_moved table target [] rows rows' log log' h a e =
    let same : rows ≡ rows' = cc in sym same ∙ sym (map-identity target rows)
move_rows_moved table target (o ∷ os) rows rows' log log' h a e =
    let far : every (λ p. not (shares o.fields p.fields)) os ≡ true = ground arith in
    elim (Bool-cases (has_conflict target o rows)) [
      | inl conflict ↦
          move_rows_moved table target os rows rows' _ log' h.1 (ground arith)
            (rw (conflict, move_rows) at e)
          ∙ map-pointwise (given_to target (is_picked target rows os))
              (given_to target (is_picked target rows (o ∷ os))) rows
              (λ r. rw conflict (ground arith))
      | inr free ↦ elim (Bool-cases (is_refused target o rows)) [
        | inl refused ↦
            let stuck : none ≡ some (rows', log') = rw (free, refused, move_rows) at e in cc
        | inr fine ↦
            move_rows_moved table target os (set_user o.pk target rows) rows' _ log'
              (set_user-AllCoherent os o.pk target rows h.1) (ground arith)
              (rw (free, fine, move_rows) at e)
            ∙ map-fused (handed_over o.pk target)
                (given_to target (is_picked target (set_user o.pk target rows) os))
                (given_to target (is_picked target rows (o ∷ os))) rows
                (λ r.
                  given_to-handed_over o.pk target (is_picked target (set_user o.pk target rows) os)
                    (is_picked target rows os) r
                    (λ s. is_picked-set_user o os rows target s h.0 far)
                    (is_picked-handed_over o.pk target rows os r)
                  ∙ rw free (ground arith))
      ]
    ]

-- What is noted, as the table is.
abbrev pub note_row : ℕ → ℕ → List Row → Row → MergeLog → MergeLog
note_row table target rows o log =
    if has_conflict target o rows
    then note_skipped (row_of table o.pk) log
    else note_moved (row_of table o.pk) log

abbrev pub note_rows : ℕ → ℕ → List Row → List Row → MergeLog → MergeLog
note_rows table target rows [] log = log
note_rows table target rows (o ∷ os) log =
    note_rows table target rows os (note_row table target rows o log)

note_rows-set_user :
    (table target : ℕ) (o : Row) (os rows : List Row) (log : MergeLog)
    → Coherent o rows
    → every (λ p. not (shares o.fields p.fields)) os ≡ true
    → note_rows table target (set_user o.pk target rows) os log ≡ note_rows table target rows os log
note_rows-set_user table target o [] rows log h k = refl
note_rows-set_user table target o (p ∷ os) rows log h k =
    let same : shares o.fields p.fields ≡ false = ground arith in
    rw (has_conflict-set_user o p target rows h same) (
      note_rows-set_user table target o os rows (note_row table target rows p log) h (ground arith))

pub move_rows_noted :
    (table target : ℕ) (objs rows rows' : List Row) (log log' : MergeLog)
    → AllCoherent objs rows
    → apart objs ≡ true
    → move_rows false table target objs rows log ≡ some (rows', log')
    → log' ≡ note_rows table target rows objs log
move_rows_noted table target [] rows rows' log log' h a e = cc
move_rows_noted table target (o ∷ os) rows rows' log log' h a e =
    let far : every (λ p. not (shares o.fields p.fields)) os ≡ true = ground arith in
    elim (Bool-cases (has_conflict target o rows)) [
      | inl conflict ↦ rw conflict (
          move_rows_noted table target os rows rows' _ log' h.1 (ground arith)
            (rw (conflict, move_rows) at e))
      | inr free ↦ elim (Bool-cases (is_refused target o rows)) [
        | inl refused ↦
            let stuck : none ≡ some (rows', log') = rw (free, refused, move_rows) at e in cc
        | inr fine ↦ rw free (
            move_rows_noted table target os (set_user o.pk target rows) rows' _ log'
              (set_user-AllCoherent os o.pk target rows h.1) (ground arith)
              (rw (free, fine, move_rows) at e)
            ∙ note_rows-set_user table target o os rows _ h.0 far)
      ]
    ]

pub move_rows_dry :
    (table target : ℕ) (objs rows : List Row) (log : MergeLog)
    → move_rows true table target objs rows log ≡ some (rows, note_rows table target rows objs log)
move_rows_dry table target [] rows log = refl
move_rows_dry table target (o ∷ os) rows log = elim (Bool-cases (has_conflict target o rows)) [
  | inl conflict ↦
      rw (conflict, move_rows)
        (move_rows_dry table target os rows (note_skipped (row_of table o.pk) log))
  | inr free ↦
      rw (free, move_rows) (move_rows_dry table target os rows (note_moved (row_of table o.pk) log))
]
