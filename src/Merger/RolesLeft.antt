-- ===== src/Merger/RolesLeft.antt =====
-- What a merge leaves of the roles of the source.
use voteit.Prelude.{
  ℕ, ◌≡◌, refl, sym, ap, ◌∙◌, Bool, true, false, not, ◌||◌, Option, none, some, List, [], ◌∷◌, ◌==◌,
  select, exists, every, nat_eq, Bool-cases, Option-cases, inl, inr, arith,
}
use voteit.Merger.{
  MergeLog, RoleRow, is_row, assigned_to, store_roles, merge_rows, note_roles, merge_roles,
}

module _ {R : Type 0} where
  abbrev in_context : ℕ → List (RoleRow R) → Bool
  in_context c = exists (λ r. r.context == c)

  -- the rows of the user are in the contexts of those that are left to do
  abbrev covered : ℕ → List (RoleRow R) → List (RoleRow R) → Bool
  covered source srcs = every (λ r. not (r.user == source) || in_context r.context srcs)

  abbrev pub no_row : ℕ → List (RoleRow R) → Bool
  no_row source = every (λ (r : RoleRow R). not (r.user == source))

  covered-cons :
      (source : ℕ) (src : RoleRow R) (srcs rows : List (RoleRow R))
      → covered source srcs rows ≡ true
      → covered source (src ∷ srcs) rows ≡ true
  covered-cons source src srcs [] h = refl
  covered-cons source src srcs (r ∷ rows) h = ground (arith, covered-cons source src srcs rows)

  covered_start :
      (source : ℕ) (rows : List (RoleRow R))
      → covered source (select (λ r. r.user == source) rows) rows ≡ true
  covered_start source [] = refl
  covered_start source (r ∷ rows) =
      let his_rows = λ (rs : List (RoleRow R)). select (λ r. r.user == source) rs in
      elim (Bool-cases (r.user == source)) [
        | inl his ↦
            let found : his_rows (r ∷ rows) ≡ r ∷ his_rows rows = rw his refl in
            let rest = covered-cons source r (his_rows rows) rows (covered_start source rows) in
            ap (λ srcs. covered source srcs (r ∷ rows)) found ∙ ground (arith, rest)
        | inr other ↦
            let found : his_rows (r ∷ rows) ≡ his_rows rows = rw other refl in
            ap (λ srcs. covered source srcs (r ∷ rows)) found ∙ rw other (covered_start source rows)
      ]

  covered-store_roles :
      (source target c : ℕ) (roles : List R) (srcs rows : List (RoleRow R))
      → (target == source) ≡ false
      → covered source srcs rows ≡ true
      → covered source srcs (store_roles target c roles rows) ≡ true
  covered-store_roles source target c roles srcs [] t h = ground arith
  covered-store_roles source target c roles srcs (r ∷ rows) t h =
      ground (arith, covered-store_roles source target c roles srcs rows)

  covered-select :
      (source : ℕ) (src : RoleRow R) (srcs rows : List (RoleRow R))
      → covered source (src ∷ srcs) rows ≡ true
      → covered source srcs (select (λ r. not (is_row source src.context r)) rows) ≡ true
  covered-select source src srcs [] h = refl
  covered-select source src srcs (r ∷ rows) h = ground (arith, covered-select source src srcs rows)

  covered-no_row :
      (source : ℕ) (rows : List (RoleRow R))
      → covered source [] rows ≡ true
      → no_row source rows ≡ true
  covered-no_row source [] h = refl
  covered-no_row source (r ∷ rows) h = ground (arith, covered-no_row source rows)

  module _ (add_roles : List R → List R → Option (List R)) where
    merge_rows-no_row :
        (table source target : ℕ) (srcs rows rows' : List (RoleRow R)) (log log' : MergeLog)
        → (target == source) ≡ false
        → covered source srcs rows ≡ true
        → merge_rows add_roles false table source target srcs rows log ≡ some (rows', log')
        → no_row source rows' ≡ true
    merge_rows-no_row table source target [] rows rows' log log' t h e =
        let same : rows ≡ rows' = cc in ap (no_row source) (sym same) ∙ covered-no_row source rows h
    merge_rows-no_row table source target (src ∷ srcs) rows rows' log log' t h e =
        elim (Option-cases (add_roles (assigned_to target src.context rows) src.assigned)) [
          | inl invalid ↦
              let stuck : none ≡ some (rows', log') = rw (invalid, merge_rows) at e in cc
          | inr (roles, added) ↦
              merge_rows-no_row table source target srcs
                (select (λ r. not (is_row source src.context r))
                  (store_roles target src.context roles rows))
                rows' (note_roles table target src rows log) log' t
                (covered-select source src srcs (store_roles target src.context roles rows)
                  (covered-store_roles source target src.context roles (src ∷ srcs) rows t h))
                (rw (added, merge_rows) at e)
        ]

    pub merge_roles-no_row :
        (table source target : ℕ) (rows rows' : List (RoleRow R)) (log log' : MergeLog)
        → (target == source) ≡ false
        → merge_roles add_roles false table source target rows log ≡ some (rows', log')
        → no_row source rows' ≡ true
    unfolding merge_roles
    merge_roles-no_row table source target rows rows' log log' t e =
        merge_rows-no_row table source target (select (λ r. r.user == source) rows) rows rows' log
          log' t (covered_start source rows) e
