-- ===== src/Groups/Dialects.antt =====
-- The dialects that a dialect of meetings requires: `DialectRegistry.get_dependent_dialects` of
-- voteit/meeting/dialects.py. Names are numbers. The loop has fuel: a round for each dialect of the
-- registry and one more, which `get_dependent_dialects_ends` shows to be enough.
pub mod Merging
use voteit.Prelude.{
  ℕ, zero, suc, ◌+◌, ◌≤◌, ◌<◌, ◌≡◌, ◌≢◌, ◌⊎◌, refl, Bool, true, false, not, Option, none, some,
  List, [], ◌∷◌, ◌++◌, ◌==◌, if◌then◌else◌, map, member, length, tally, tally-append, arith,
  Option-cases, Bool-cases, inl, inr,
}
use mathlib.Core.Path.{subst}

pub record Dialect : Type 0 where
  pub name : ℕ
  pub requires : List ℕ

-- What the call comes to: the dialects, an exception on a name that came up before, or on a name that
-- the registry does not have.
pub data Loading : Type 0 where
  loaded : List Dialect → Loading
  cyclic : ℕ → Loading
  missing : ℕ → Loading
  out_of_fuel : Loading

-- `self[current]`
abbrev pub lookup : ℕ → List Dialect → Option Dialect
lookup name [] = none
lookup name (d ∷ ds) = if d.name == name then some d else lookup name ds

module _ (registry : List Dialect) where
  -- `while return_names`
  abbrev pub load_names : ℕ → List ℕ → List ℕ → List Dialect → Loading
  load_names fuel added [] results = loaded results
  load_names zero added (current ∷ names) results = out_of_fuel
  load_names (suc fuel) added (current ∷ names) results = elim (member current added) [
    | true ↦ cyclic current
    | false ↦ elim (lookup current registry) [
      | none ↦ missing current
      | some d ↦ load_names fuel (current ∷ added) (names ++ d.requires) (results ++ d ∷ [])
    ]
  ]

  unfoldable pub get_dependent_dialects : ℕ → Loading
  get_dependent_dialects name = load_names (suc (length registry)) [] (name ∷ []) []

-- dialects that were not added yet
abbrev unadded : List ℕ → Dialect → Bool
unadded added d = not (member d.name added)

tally-unadded :
    (c : ℕ) (added : List ℕ) (ds : List Dialect)
    → tally (unadded (c ∷ added)) ds ≤ tally (unadded added) ds
tally-unadded c added [] = ground arith
tally-unadded c added (d ∷ ds) = ground (arith, tally-unadded c added ds)

pub same_member : (a b : ℕ) (ks : List ℕ) → (a == b) ≡ true → member a ks ≡ member b ks
same_member a b [] h = refl
same_member a b (k ∷ ks) h = ground (arith, same_member a b ks)

added-fewer :
    (c : ℕ) (added : List ℕ) (ds : List Dialect) (d : Dialect)
    → member c added ≡ false
    → lookup c ds ≡ some d
    → tally (unadded (c ∷ added)) ds < tally (unadded added) ds
added-fewer c added [] d h e = ground arith
added-fewer c added (x ∷ xs) d h e =
    ground (arith, added-fewer c added xs d, tally-unadded c added xs, same_member x.name c added)

load_names_ends :
    (registry : List Dialect) (fuel : ℕ) (added names : List ℕ) (results : List Dialect)
    → tally (unadded added) registry < fuel
    → load_names registry fuel added names results ≢ out_of_fuel
load_names_ends registry fuel added [] results h = ground arith
load_names_ends registry zero added (c ∷ names) results h = absurd (omega arith)
load_names_ends registry (suc fuel) added (c ∷ names) results h =
    elim (Bool-cases (member c added)) [
      | inl again ↦ ground arith
      | inr fresh ↦ elim (Option-cases (lookup c registry)) [
        | inl absent ↦ ground arith
        | inr (d, found) ↦ ground (
          arith,
          added-fewer c added registry d fresh found,
          load_names_ends registry fuel (c ∷ added) (names ++ d.requires) (results ++ d ∷ []),
        )
      ]
    ]

tally-unadded_none : (ds : List Dialect) → tally (unadded []) ds ≤ length ds
tally-unadded_none [] = ground arith
tally-unadded_none (d ∷ ds) = ground (arith, tally-unadded_none ds)

-- Looking up what a dialect requires ends, whatever the registry holds, cyclic requirements included.
pub get_dependent_dialects_ends :
    (registry : List Dialect) (name : ℕ) → get_dependent_dialects registry name ≢ out_of_fuel
unfolding get_dependent_dialects
get_dependent_dialects_ends registry name =
    load_names_ends registry (suc (length registry)) [] (name ∷ []) []
      (omega (arith, tally-unadded_none registry))

abbrev pub names_of : List Dialect → List ℕ
names_of = map (λ d. d.name)

-- all that is required, as often as it is
abbrev pub required : List Dialect → List ℕ
required [] = []
required (d ∷ ds) = d.requires ++ required ds

tally-names_append :
    (k : ℕ) (ds : List Dialect) (d : Dialect)
    → tally (λ n. n == k) (names_of (ds ++ d ∷ []))
      ≡ tally (λ n. n == k) (names_of ds) + tally (λ n. n == k) (d.name ∷ [])
tally-names_append k [] d = ground arith
tally-names_append k (x ∷ xs) d = ground (arith, tally-names_append k xs d)

tally-required_append :
    (k : ℕ) (ds : List Dialect) (d : Dialect)
    → tally (λ n. n == k) (required (ds ++ d ∷ []))
      ≡ tally (λ n. n == k) (required ds) + tally (λ n. n == k) d.requires
tally-required_append k [] d = omega (arith, tally-append (λ n. n == k) d.requires [])
tally-required_append k (x ∷ xs) d = omega (
  arith,
  tally-required_append k xs d,
  tally-append (λ n. n == k) x.requires (required (xs ++ d ∷ [])),
  tally-append (λ n. n == k) x.requires (required xs),
)

lookup-name : (c : ℕ) (ds : List Dialect) (d : Dialect) → lookup c ds ≡ some d → d.name ≡ c
lookup-name c [] d h = ground arith
lookup-name c (x ∷ xs) d h = ground (arith, lookup-name c xs d)

-- What holds in every round: the dialects so far and the names to come are what was asked for.
record Progress (registry : List Dialect) (name : ℕ) (added names : List ℕ) (results : List Dialect)
    : Type 0 where
  accounted :
      (k : ℕ)
      → tally (λ n. n == k) (names_of results) + tally (λ n. n == k) names
        ≡ tally (λ n. n == k) (name ∷ required results)
  once : (k : ℕ) → (tally (λ n. n == k) (names_of results) ≡ 0) ⊎ (member k added ≡ true)
  distinct_names : (k : ℕ) → tally (λ n. n == k) (names_of results) ≤ 1

-- What a successful call returns.
pub record Dependent (name : ℕ) (ds : List Dialect) : Type 0 where
  pub exactly_required :
      (k : ℕ) → tally (λ n. n == k) (names_of ds) ≡ tally (λ n. n == k) (name ∷ required ds)
  pub each_once : (k : ℕ) → tally (λ n. n == k) (names_of ds) ≤ 1

load_names-Dependent :
    (registry : List Dialect) (name fuel : ℕ) (added names : List ℕ) (results ds : List Dialect)
    → Progress registry name added names results
    → load_names registry fuel added names results ≡ loaded ds
    → Dependent name ds
load_names-Dependent registry name fuel added [] results ds r e =
    subst (Dependent name) (ground arith) (record {
      exactly_required = λ k. ground (arith, r.accounted k);
      each_once = r.distinct_names;
    })
load_names-Dependent registry name zero added (c ∷ names) results ds r e = absurd (ground arith)
load_names-Dependent registry name (suc fuel) added (c ∷ names) results ds r e =
    elim (Bool-cases (member c added)) [
      | inl again ↦ absurd (ground arith)
      | inr fresh ↦ elim (Option-cases (lookup c registry)) [
        | inl absent ↦ absurd (ground arith)
        | inr (d, found) ↦
            load_names-Dependent registry name fuel (c ∷ added) (names ++ d.requires)
              (results ++ d ∷ []) ds
              (record {
                accounted = λ k. ground (
                  arith,
                  r.accounted k,
                  tally-names_append k results d,
                  tally-required_append k results d,
                  tally-append (λ n. n == k) names d.requires,
                  lookup-name c registry d found,
                );
                once = λ k. ground (
                  arith,
                  r.once k,
                  tally-names_append k results d,
                  lookup-name c registry d found,
                );
                distinct_names = λ k. ground (
                  arith,
                  r.once k,
                  r.distinct_names k,
                  tally-names_append k results d,
                  lookup-name c registry d found,
                  same_member c k added,
                );
              })
              (ground arith)
      ]
    ]

-- Where the call returns, each dialect comes once, and the dialects are those that were asked for or
-- are required by one of them, each exactly as often as it is required: so no dialect is required
-- by two of them.
pub get_dependent_dialects_lem :
    (registry : List Dialect) (name : ℕ) (ds : List Dialect)
    → get_dependent_dialects registry name ≡ loaded ds
    → Dependent name ds
unfolding get_dependent_dialects
get_dependent_dialects_lem registry name ds =
    load_names-Dependent registry name (suc (length registry)) [] (name ∷ []) [] ds (record {
      accounted = λ k. ground arith;
      once = λ k. inl refl;
      distinct_names = λ k. omega arith;
    })
