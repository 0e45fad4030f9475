-- ===== src/Core/Chart.antt =====
-- State charts as the program declares them for python-statemachine (voteit/core/statemachines.py
-- and the five statemachines.py files). The declarations are data; the library that reads them is
-- a parameter, `Engine`, with its documented behaviour as laws.
use voteit.Prelude.{
  ℕ, ◌≡◌, refl, Bool, true, false, ◌&&◌, Option, none, some, List, [], ◌∷◌, ◌==◌, Bool-cases,
  Option-cases, inl, inr,
}

-- One `source.to(target, validators=…, cond=…, on=…)`; `G` names the methods of the chart.
-- A transition with no event is eventless ("automatic").
pub record Transition (S E G : Type 0) : Type 0 where
  pub source : S
  pub event : Option E
  pub target : S
  pub validators : List G
  pub conds : List G
  pub on : List G

-- What the library makes of an event: a transition, the exception of a validator, or neither.
pub data Choice (T X : Type 0) : Type 0 where
  taken : T → Choice T X
  refused : X → Choice T X
  not_enabled : Choice T X

-- Transitions are tried in declaration order. Of one that fits the state and the event, first the
-- validators run, whose exception propagates, then the conditions, which only pass it over.
pub record Engine (T X : Type 0) : Type 0 where
  pub choose : (T → Bool) → (T → Option X) → (T → Bool) → List T → Choice T X
  pub choose_nil :
      (fits : T → Bool) (validate : T → Option X) (holds : T → Bool)
      → choose fits validate holds [] ≡ not_enabled
  pub choose_other :
      (fits : T → Bool) (validate : T → Option X) (holds : T → Bool) (t : T) (ts : List T)
      → fits t ≡ false
      → choose fits validate holds (t ∷ ts) ≡ choose fits validate holds ts
  pub choose_raise :
      (fits : T → Bool) (validate : T → Option X) (holds : T → Bool) (t : T) (ts : List T) (x : X)
      → fits t ≡ true
      → validate t ≡ some x
      → choose fits validate holds (t ∷ ts) ≡ refused x
  pub choose_pass :
      (fits : T → Bool) (validate : T → Option X) (holds : T → Bool) (t : T) (ts : List T)
      → fits t ≡ true
      → validate t ≡ none
      → holds t ≡ false
      → choose fits validate holds (t ∷ ts) ≡ choose fits validate holds ts
  pub choose_take :
      (fits : T → Bool) (validate : T → Option X) (holds : T → Bool) (t : T) (ts : List T)
      → fits t ≡ true
      → validate t ≡ none
      → holds t ≡ true
      → choose fits validate holds (t ∷ ts) ≡ taken t

module _ {T X : Type 0} (fits : T → Bool) (validate : T → Option X) (holds : T → Bool) where
  abbrev attempt : Bool → Option X → Bool → T → Choice T X → Choice T X
  attempt false _ _ t rest = rest
  attempt true (some x) _ t rest = refused x
  attempt true none true t rest = taken t
  attempt true none false t rest = rest

  -- The choice that the laws leave no freedom to differ from.
  abbrev pub first_enabled : List T → Choice T X
  first_enabled [] = not_enabled
  first_enabled (t ∷ ts) = attempt (fits t) (validate t) (holds t) t (first_enabled ts)

module _ {T X : Type 0} (engine : Engine T X) where
  open engine use {choose, choose_nil, choose_other, choose_raise, choose_pass, choose_take}

  -- Every engine that obeys the laws makes this choice.
  pub choose-first_enabled :
      (fits : T → Bool) (validate : T → Option X) (holds : T → Bool) (ts : List T)
      → choose fits validate holds ts ≡ first_enabled fits validate holds ts
  choose-first_enabled f v h [] = choose_nil f v h
  choose-first_enabled f v h (t ∷ ts) = elim (Bool-cases (f t)) [
    | inl yes_fits ↦ elim (Option-cases (v t)) [
      | inl clean ↦ elim (Bool-cases (h t)) [
        | inl open_gate ↦
            rw (yes_fits, clean, open_gate) (choose_take f v h t ts yes_fits clean open_gate)
        | inr shut ↦ cc (
          choose_pass f v h t ts yes_fits clean shut,
          choose-first_enabled f v h ts,
          yes_fits,
          clean,
          shut,
        )
      ]
      | inr (x, raised) ↦ rw (yes_fits, raised) (choose_raise f v h t ts x yes_fits raised)
    ]
    | inr misfit ↦ cc (choose_other f v h t ts misfit, choose-first_enabled f v h ts, misfit)
  ]

-- The library itself, so far as the laws describe it.
abbrev pub python_statemachine : {T X : Type 0} → Engine T X
python_statemachine = record {
  choose = first_enabled;
  choose_nil = λ f v h. refl;
  choose_other = λ f v h t ts p. rw p;
  choose_raise = λ f v h t ts x p q. rw (p, q);
  choose_pass = λ f v h t ts p q r. rw (p, q, r);
  choose_take = λ f v h t ts p q r. rw (p, q, r);
}

-- Validators run in order, and the first that raises ends the run.
abbrev pub first_error : {G X : Type 0} → (G → Option X) → List G → Option X
first_error validate [] = none
first_error validate (g ∷ gs) = elim (validate g) [
  | none ↦ first_error validate gs
  | some x ↦ some x
]

-- The value of an event, none for an eventless transition.
abbrev same_event : Option ℕ → Option ℕ → Bool
same_event none none = true
same_event (some a) (some b) = a == b
same_event _ _ = false

abbrev value_of : {E : Type 0} → (E → ℕ) → Option E → Option ℕ
value_of value none = none
value_of value (some e) = some (value e)

-- `fits` of a transition for a state and an event, compared by their values.
abbrev pub fits : {G S E : Type 0} → (S → ℕ) → (E → ℕ) → S → Option E → Transition S E G → Bool
fits state event s e t =
    (state t.source == state s) && same_event (value_of event t.event) (value_of event e)
