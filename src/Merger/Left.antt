-- ===== src/Merger/Left.antt =====
-- What a merge leaves of the source.
use voteit.Prelude.{
  ℕ, ◌≡◌, ◌≢◌, refl, sym, ap, ◌∙◌, Bool, true, false, not, ◌||◌, Option, none, some, List, [], ◌∷◌,
  ◌==◌, select, every, nat_eq, Bool-cases, Option-cases, inl, inr, arith,
}
use mathlib.Core.Path.{subst}
use voteit.Merger.{User, Refusal, validate, MergeLog, empty_log, merge_roles, merge_registers}
use voteit.Merger.Tables.{move_tables, move_orders, move_members}
use voteit.Merger.Dependents.{unbound, remove_dependents-unbound, move_tables-unbound}
use voteit.Merger.RolesLeft.{no_row, merge_roles-no_row}
use voteit.Merger.Run.{
  Database, UserMerger, Outcome, done, failed, refused, delete_active, deactivate, move_rest,
  meetings_of, remove_active_user, remove_dependents, steps, run, rows_at,
}

-- no row of the user as an active one
abbrev pub absent : ℕ → List (ℕ × ℕ) → Bool
absent source = every (λ (a : ℕ × ℕ). not (a.0 == source))

no_active :
    (source : ℕ) (users : List (ℕ × ℕ))
    → absent source (select (λ a. not (a.0 == source)) users) ≡ true
no_active source [] = refl
no_active source (u ∷ users) = ground (arith, no_active source users)

-- no account of the user is active
abbrev pub inactive : ℕ → List User → Bool
inactive pk = every (λ (u : User). not (u.pk == pk) || not u.is_active)

deactivated :
    (pk : ℕ) (users : List User) (log : MergeLog)
    → inactive pk (deactivate false pk users log).0 ≡ true
deactivated pk [] log = refl
deactivated pk (u ∷ users) log = elim (Bool-cases (u.pk == pk)) [
  | inl his ↦ rw his (ground (arith, deactivated pk users log))
  | inr other ↦ rw other (ground (arith, deactivated pk users log))
]

pub validate-different :
    (same_person : Bool) (source target : User)
    → validate same_person source target ≡ none
    → (target.pk == source.pk) ≡ false
unfolding validate
validate-different same_person source target h = ground arith

-- a merge that is no dry run
abbrev pub merging : User → User → Bool → UserMerger
merging source target same_person = record {
  source = source;
  target = target;
  dry_run = false;
  same_person = same_person;
}

pub refused-done : (r : Refusal) (log : MergeLog) → refused r ≢ done log
refused-done r log = cc

pub failed-done : (log : MergeLog) → failed ≢ done log
failed-done log = cc

pub just_equal : {A : Type 0} {a b : A} → some a ≡ some b → a ≡ b
just_equal e = cc

module _ {M O : Type 0} (add_meeting_roles : List M → List M → Option (List M))
    (add_organisation_roles : List O → List O → Option (List O)) where
  move_rest_left :
      (source target : User) (same_person : Bool) (meetings : List ℕ) (db db' : Database M O)
      (log log' : MergeLog)
      → (target.pk == source.pk) ≡ false
      → every (unbound source.pk meetings) db.tables ≡ true
      → move_rest add_meeting_roles add_organisation_roles
          (merging source target same_person)
          db
          log
        ≡ some (db', log')
      → (db'.meeting_roles ≡ db.meeting_roles)
        × (db'.organisation_roles ≡ db.organisation_roles)
        × (absent source.pk db'.active_users ≡ true)
        × (inactive source.pk db'.users ≡ true)
        × (every (unbound source.pk meetings) db'.tables ≡ true)
  move_rest_left source target same_person meetings db db' log log' d b e =
      let log1 = (delete_active false source.pk db.active_users log).1 in
      let log2 = (merge_registers false source.pk target.pk db.registers log1).1 in
      elim (Option-cases (move_tables false 0 source.pk target.pk db.tables log2)) [
        | inl conflict ↦ let stuck : none ≡ some (db', log') = rw (conflict, move_rest) at e in cc
        | inr (t, moved) ↦
            let log3 = t.1 in
            let orders =
              move_orders false source.pk target.pk (rows_at db.speaker_table t.0) db.orders log3 in
            let fields = move_members false 0 source.pk target.pk db.fields orders.1 in
            let whole : some (
              record db {
                users = (deactivate false source.pk db.users fields.1).0;
                active_users = (delete_active false source.pk db.active_users log).0;
                registers = (merge_registers false source.pk target.pk db.registers log1).0;
                tables = t.0;
                orders = orders.0;
                fields = fields.0;
              },
              (deactivate false source.pk db.users fields.1).1,
            )
                ≡ some (db', log') =
              rw (moved, move_rest) at e in
            let same = just_equal whole in
            (
              ap (λ (p : Database M O × MergeLog). p.0.meeting_roles) (sym same),
              ap (λ (p : Database M O × MergeLog). p.0.organisation_roles) (sym same),
              ap (λ (p : Database M O × MergeLog). absent source.pk p.0.active_users) (sym same)
                  ∙ no_active source.pk db.active_users,
              ap (λ (p : Database M O × MergeLog). inactive source.pk p.0.users) (sym same)
                  ∙ deactivated source.pk db.users fields.1,
              ap (λ (p : Database M O × MergeLog). every (unbound source.pk meetings) p.0.tables)
                    (sym same)
                  ∙ move_tables-unbound source.pk target.pk 0 meetings db.tables t.0 log2 t.1 d b
                      moved,
            )
      ]

  steps_left :
      (source target : User) (same_person : Bool) (db db' : Database M O) (log : MergeLog)
      → (target.pk == source.pk) ≡ false
      → steps add_meeting_roles add_organisation_roles (merging source target same_person) db
        ≡ some (db', log)
      → (no_row source.pk db'.meeting_roles ≡ true)
        × (no_row source.pk db'.organisation_roles ≡ true)
        × (absent source.pk db'.active_users ≡ true)
        × (inactive source.pk db'.users ≡ true)
        × (every (unbound source.pk (meetings_of source.pk db.meeting_roles)) db'.tables ≡ true)
  unfolding merge_roles
  steps_left source target same_person db db' log t e =
      elim (Option-cases
        (merge_roles add_meeting_roles false 0 source.pk target.pk db.meeting_roles empty_log)) [
          | inl invalid ↦ let stuck : none ≡ some (db', log) = rw (invalid, steps) at e in cc
          | inr (meeting, m) ↦
              elim (Option-cases (
                merge_roles add_organisation_roles false 1 source.pk target.pk db.organisation_roles
                  meeting.1)) [
                    | inl invalid ↦
                        let stuck : none ≡ some (db', log) = rw (m, invalid, steps) at e in cc
                    | inr (organisation, o) ↦
                        let left =
                          move_rest_left source target same_person
                            (meetings_of source.pk db.meeting_roles)
                            (record db {
                              meeting_roles = meeting.0;
                              organisation_roles = organisation.0;
                              active_users =
                                  remove_active_user false source.pk
                                    (meetings_of source.pk db.meeting_roles) db.active_users;
                              tables =
                                  remove_dependents false source.pk
                                    (meetings_of source.pk db.meeting_roles) db.tables;
                            })
                            db' organisation.1 log t
                            (remove_dependents-unbound source.pk
                              (meetings_of source.pk db.meeting_roles) db.tables)
                            (rw (m, o, steps) at e) in
                        (
                          ap (no_row source.pk) left.0
                              ∙ merge_roles-no_row add_meeting_roles 0 source.pk target.pk
                                  db.meeting_roles meeting.0 empty_log meeting.1 t m,
                          ap (no_row source.pk) left.1
                              ∙ merge_roles-no_row add_organisation_roles 1 source.pk target.pk
                                  db.organisation_roles organisation.0 meeting.1 organisation.1 t o,
                          left.2,
                          left.3,
                          left.4,
                        )
                  ]
        ]

  -- With any way to add roles: after a merge that is done and is no dry run, the source has no roles in
  -- any meeting or organisation, no row as an active user, and its account is not active; and no row that
  -- depends on a meeting in which it had roles (a membership of a group, a used invite, a vote transfer)
  -- refers to it.
  pub run_left :
      (source target : User) (same_person : Bool) (db db' : Database M O) (log : MergeLog)
      → run add_meeting_roles add_organisation_roles (merging source target same_person) db
        ≡ (done log, db')
      → (no_row source.pk db'.meeting_roles ≡ true)
        × (no_row source.pk db'.organisation_roles ≡ true)
        × (absent source.pk db'.active_users ≡ true)
        × (inactive source.pk db'.users ≡ true)
        × (every (unbound source.pk (meetings_of source.pk db.meeting_roles)) db'.tables ≡ true)
  unfolding run
  run_left source target same_person db db' log e =
      elim (Option-cases (validate same_person source target)) [
        | inr (r, refusal) ↦
            let stuck : (refused r, db) ≡ (done log, db') = rw (refusal, run) at e in
            absurd (refused-done r log (ap (λ (p : Outcome × Database M O). p.0) stuck))
        | inl valid ↦
            elim (Option-cases (
              steps add_meeting_roles add_organisation_roles (merging source target same_person)
                db)) [
                  | inl broken ↦
                      let stuck : (failed, db) ≡ (done log, db') = rw (valid, broken, run) at e in
                      absurd (failed-done log (ap (λ (p : Outcome × Database M O). p.0) stuck))
                  | inr (r, merged) ↦
                      let whole : (done r.1, r.0) ≡ (done log, db') =
                        rw (valid, merged, run) at e in
                      let left =
                        steps_left source target same_person db r.0 r.1
                          (validate-different same_person source target valid) merged in
                      let same : r.0 ≡ db' = ap (λ (p : Outcome × Database M O). p.1) whole in
                      subst
                        (λ (d : Database M O).
                          (no_row source.pk d.meeting_roles ≡ true)
                          × (no_row source.pk d.organisation_roles ≡ true)
                          × (absent source.pk d.active_users ≡ true)
                          × (inactive source.pk d.users ≡ true)
                          × (every (unbound source.pk (meetings_of source.pk db.meeting_roles))
                                d.tables
                              ≡ true))
                        same left
                ]
      ]
