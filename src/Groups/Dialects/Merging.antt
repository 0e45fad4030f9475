-- ===== src/Groups/Dialects/Merging.antt =====
-- `DialectRegistry.get_merged_handler` of voteit/meeting/dialects.py: a dialect with what the dialects
-- hold that it requires. The names of fields and their values are numbers. A list that is missing is
-- empty, which is the default of the schema that reads the merged data; a value that is None is
-- missing. The check of the merged data by the schema is left out.
use voteit.Prelude.{
  ℕ, ◌≡◌, refl, sym, ap, ◌∙◌, true, false, ◌||◌, Option, none, some, List, [], ◌∷◌, ◌++◌,
  if◌then◌else◌, map, member, member-append, exists, distinct, arith,
}
use mathlib.Core.List.{reverse, map-append, reverse-append}
use voteit.Groups.Dialects.{
  Dialect, Loading, loaded, cyclic, missing, out_of_fuel, get_dependent_dialects, same_member,
}

pub record Data : Type 0 where
  pub name : ℕ
  pub lists : ℕ → List ℕ
  pub values : ℕ → Option ℕ

-- `data[k].extend(i for i in items if i not in data[k])`: the list grows while it is asked
abbrev pub extend : List ℕ → List ℕ → List ℕ
extend old [] = old
extend old (i ∷ items) = extend (if member i old then old else old ++ i ∷ []) items

-- `data.update(handler_data)`
abbrev pub update : Option ℕ → Option ℕ → Option ℕ
update old none = old
update old (some v) = some v

abbrev pub merge : Data → Data → Data
merge data_so_far d = record data_so_far {
  lists = λ k. extend (data_so_far.lists k) (d.lists k);
  values = λ k. update (data_so_far.values k) (d.values k);
}

abbrev pub merge_all : Data → List Data → Data
merge_all merged [] = merged
merge_all merged (d ∷ ds) = merge_all (merge merged d) ds

abbrev nothing : ℕ → Data
nothing name = record { name = name; lists = λ k. []; values = λ k. none }

-- `contents` is the data of the dialect files. An exception of the lookup is none.
abbrev merge_loaded : (ℕ → Data) → ℕ → Loading → Option Data
merge_loaded contents name (loaded ds) =
    some (merge_all (nothing name) (map (λ d. contents d.name) (reverse ds)))
merge_loaded contents name (cyclic n) = none
merge_loaded contents name (missing n) = none
merge_loaded contents name out_of_fuel = none

unfoldable pub get_merged_handler : List Dialect → (ℕ → Data) → ℕ → Option Data
get_merged_handler registry contents name =
    merge_loaded contents name (get_dependent_dialects registry name)

extend-member :
    (i : ℕ) (old items : List ℕ) → member i (extend old items) ≡ (member i old || member i items)
extend-member i old [] = ground arith
extend-member i old (j ∷ items) = ground (
  arith,
  member-append i old (j ∷ []),
  extend-member i (if member j old then old else old ++ j ∷ []) items,
  same_member j i old,
)

distinct-append :
    (i : ℕ) (xs : List ℕ)
    → distinct xs ≡ true
    → member i xs ≡ false
    → distinct (xs ++ i ∷ []) ≡ true
distinct-append i [] h k = refl
distinct-append i (x ∷ xs) h k = ground (arith, distinct-append i xs, member-append x xs (i ∷ []))

extend-distinct : (old items : List ℕ) → distinct old ≡ true → distinct (extend old items) ≡ true
extend-distinct old [] h = h
extend-distinct old (j ∷ items) h = ground (
  arith,
  distinct-append j old,
  extend-distinct (if member j old then old else old ++ j ∷ []) items,
)

merge_all-append :
    (m : Data) (xs ys : List Data) → merge_all m (xs ++ ys) ≡ merge_all (merge_all m xs) ys
merge_all-append m [] ys = refl
merge_all-append m (x ∷ xs) ys = merge_all-append (merge m x) xs ys

update-first :
    (old older v : Option ℕ)
    → old ≡ older
    → update old v ≡ (elim v [ some w ↦ some w | none ↦ older ])
update-first old older none h = h
update-first old older (some w) h = refl

module _ (contents : ℕ → Data) (name : ℕ) where
  abbrev data_of : Dialect → Data
  data_of d = contents d.name

  abbrev merged : List Dialect → Data
  merged ds = merge_all (nothing name) (map data_of (reverse ds))

  merged-cons : (d : Dialect) (ds : List Dialect) → merged (d ∷ ds) ≡ merge (merged ds) (data_of d)
  merged-cons d ds =
      ap (λ xs. merge_all (nothing name) (map data_of xs)) (reverse-append (d ∷ []) ds)
      ∙ ap (merge_all (nothing name)) (map-append data_of (reverse ds) (d ∷ []))
      ∙ merge_all-append (nothing name) (map data_of (reverse ds)) (data_of d ∷ [])

  -- A reference: the value of the first dialect that has one.
  abbrev pub first_value : ℕ → List Dialect → Option ℕ
  first_value k [] = none
  first_value k (d ∷ ds) = elim ((data_of d).values k) [ some v ↦ some v | none ↦ first_value k ds ]

  merged-member :
      (k i : ℕ) (ds : List Dialect)
      → member i ((merged ds).lists k) ≡ exists (λ d. member i ((data_of d).lists k)) ds
  merged-member k i [] = refl
  merged-member k i (d ∷ ds) =
      ap (λ (m : Data). member i (m.lists k)) (merged-cons d ds)
      ∙ ground
          (arith, extend-member i ((merged ds).lists k) ((data_of d).lists k), merged-member k i ds)

  merged-distinct : (k : ℕ) (ds : List Dialect) → distinct ((merged ds).lists k) ≡ true
  merged-distinct k [] = refl
  merged-distinct k (d ∷ ds) =
      ap (λ (m : Data). distinct (m.lists k)) (merged-cons d ds)
      ∙ extend-distinct ((merged ds).lists k) ((data_of d).lists k) (merged-distinct k ds)

  merged-value : (k : ℕ) (ds : List Dialect) → (merged ds).values k ≡ first_value k ds
  merged-value k [] = refl
  merged-value k (d ∷ ds) =
      ap (λ (m : Data). m.values k) (merged-cons d ds)
      ∙ update-first ((merged ds).values k) (first_value k ds) ((data_of d).values k)
          (merged-value k ds)

  merged_of :
      (l : Loading) (m : Data)
      → merge_loaded contents name l ≡ some m
      → (ds : List Dialect) × (l ≡ loaded ds) × (merged ds ≡ m)
  merged_of (loaded ds) m h = (ds, refl, cc)
  merged_of (cyclic n) m h = cc
  merged_of (missing n) m h = cc
  merged_of out_of_fuel m h = cc

-- Where a merged dialect is returned, it is made of the dialects that the lookup gives. Each list has
-- the items that one of them has, each once; and each value is that of the first of them that has one,
-- so that the dialect itself goes before what it requires.
pub get_merged_handler_lem :
    (registry : List Dialect) (contents : ℕ → Data) (name k i : ℕ) (m : Data)
    → get_merged_handler registry contents name ≡ some m
    → (ds : List Dialect) × (get_dependent_dialects registry name ≡ loaded ds)
      × (member i (m.lists k) ≡ exists (λ d. member i ((contents d.name).lists k)) ds)
      × (distinct (m.lists k) ≡ true)
      × (m.values k ≡ first_value contents name k ds)
unfolding get_merged_handler
get_merged_handler_lem registry contents name k i m h =
    let (ds, found, e) = merged_of contents name (get_dependent_dialects registry name) m h in
    (
      ds,
      found,
      ap (λ (n : Data). member i (n.lists k)) (sym e) ∙ merged-member contents name k i ds,
      ap (λ (n : Data). distinct (n.lists k)) (sym e) ∙ merged-distinct contents name k ds,
      ap (λ (n : Data). n.values k) (sym e) ∙ merged-value contents name k ds,
    )
