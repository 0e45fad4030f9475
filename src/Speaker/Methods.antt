-- ===== src/Speaker/Methods.antt =====
-- The list methods of voteit/speaker/app/list_methods: simple.py, priority.py and gender.py.
pub mod Priority
pub mod Gender
use voteit.Prelude.{
  ℕ, zero, suc, Bool, true, false, ◌&&◌, ◌||◌, not, Option, none, some, List, [], ◌∷◌, ◌++◌, ◌==◌,
  ltb, leb, is_some, if◌then◌else◌, member, length, tally, sort_with,
}
use voteit.Speaker.{Speaker}

-- `Simple.reorder`
abbrev pub simple_reorder : List Speaker → List Speaker → List Speaker → List Speaker
simple_reorder items safe incoming = incoming

-- the annotation `spoken_count`: the finished items of the user in the list
abbrev pub spoken_count : List Speaker → Speaker → ℕ
spoken_count items s = tally (λ x. is_some x.seconds && x.user == s.user) items

-- `self.speaker_system.settings.max_times or 1_000_000`
abbrev pub max_priority : ℕ → ℕ
max_priority max_times = if max_times == 0 then 1000000 else max_times

abbrev pub min : ℕ → ℕ → ℕ
min a b = if leb a b then a else b

-- the first part of `order_key`
abbrev pub priority : ℕ → List Speaker → Speaker → ℕ
priority max_times items s = min (spoken_count items s) (max_priority max_times)

-- `incoming_order.index(speaker)`: speakers are equal by their primary keys
abbrev pub position : List Speaker → Speaker → ℕ
position [] s = 0
position (x ∷ xs) s = if x.pk == s.pk then 0 else suc (position xs s)

-- `order_key(x) <= order_key(y)`
abbrev pub priority_le : (Speaker → ℕ) → List Speaker → Speaker → Speaker → Bool
priority_le key incoming x y =
    ltb (key x) (key y) || (key x == key y && leb (position incoming x) (position incoming y))

-- `Priority.reorder`
unfoldable pub priority_reorder : ℕ → List Speaker → List Speaker → List Speaker → List Speaker
priority_reorder max_times items safe incoming =
    sort_with (priority_le (priority max_times items) incoming) incoming

-- `itertools.groupby`, without the keys: runs of equal ones
abbrev onto_run : (Speaker → ℕ) → Speaker → List (List Speaker) → List (List Speaker)
onto_run key s [] = (s ∷ []) ∷ []
onto_run key s ([] ∷ runs) = (s ∷ []) ∷ runs
onto_run key s ((x ∷ xs) ∷ runs) =
    if key s == key x then (s ∷ x ∷ xs) ∷ runs else (s ∷ []) ∷ (x ∷ xs) ∷ runs

abbrev pub group_by : (Speaker → ℕ) → List Speaker → List (List Speaker)
group_by key [] = []
group_by key (s ∷ ss) = onto_run key s (group_by key ss)

module _ (is_prio : Speaker → Bool) where
  -- `next(filter(is_prio, speakers))`, if there is one, and what `speakers.remove` of it leaves
  abbrev pub next_prio : List Speaker → Option (Speaker × List Speaker)
  next_prio [] = none
  next_prio (s ∷ ss) =
      let later = next_prio ss in
      if is_prio s
      then some (s, ss)
      else elim later [ none ↦ none | some (found, left) ↦ some (found, s ∷ left) ]

  -- the choice of a round, by default the first speaker, and what it leaves
  abbrev pub choose : Bool → Speaker → List Speaker → Speaker × List Speaker
  choose false s ss = (s, ss)
  choose true s ss = elim (next_prio (s ∷ ss)) [ none ↦ (s, ss) | some found ↦ found ]

  -- `while speakers`, with `should_prioritize` after it. Each round removes a speaker, so that as many
  -- rounds as speakers are enough.
  abbrev pub alternate : ℕ → Bool → List Speaker → List Speaker × Bool
  alternate zero flag speakers = ([], flag)
  alternate (suc rounds) flag [] = ([], flag)
  alternate (suc rounds) flag (s ∷ ss) =
      let (chosen, left) = choose flag s ss in
      let (rest, flag') = alternate rounds (not (is_prio chosen)) left in (chosen ∷ rest, flag')

  -- the loop over the groups
  abbrev pub alternate_all : Bool → List (List Speaker) → List Speaker
  alternate_all flag [] = []
  alternate_all flag (g ∷ gs) =
      let (out, flag') = alternate (length g) flag g in out ++ alternate_all flag' gs

  -- `bool(safe_speakers) and not is_prio(safe_speakers[-1])`
  abbrev pub last_not_prio : List Speaker → Bool
  last_not_prio [] = false
  last_not_prio (s ∷ []) = not (is_prio s)
  last_not_prio (s ∷ x ∷ xs) = last_not_prio (x ∷ xs)

-- The settings of the method, and the tags of the users in the meeting (`gender_tag`).
pub record GenderSettings : Type 0 where
  pub max_times : ℕ
  pub priority_genders : List ℕ
  pub gender_tag : ℕ → Option ℕ

abbrev pub is_prio : GenderSettings → Speaker → Bool
is_prio c s = elim (c.gender_tag s.user) [ none ↦ false | some g ↦ member g c.priority_genders ]

-- `GenderAndPriority.reorder`
unfoldable pub gender_reorder :
    GenderSettings → List Speaker → List Speaker → List Speaker → List Speaker
gender_reorder c items safe incoming =
    alternate_all (is_prio c) (last_not_prio (is_prio c) safe)
      (group_by (priority c.max_times items) (priority_reorder c.max_times items safe incoming))
