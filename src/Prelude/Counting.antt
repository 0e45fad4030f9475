-- ===== src/Prelude/Counting.antt =====
-- Python's `Counter` and `dict` with numbers for values: an association list in insertion order.
use Prim.Native.Nat.{ℕ, ◌+◌}
use mathlib.Core.Path.{◌≡◌}
use mathlib.Core.Logic.{◌↔◌}
use mathlib.Core.Bool.{Bool, true}
use mathlib.Core.Option.{Option, none, some}
use mathlib.Core.List.{List, [], ◌∷◌}
use native.Mathlib.Omega.{arith}
use voteit.Prelude.Tests.{if◌then◌else◌, ◌==◌, ==_iff}

pub record Eq (K : Type 0) : Type 0 where
  pub beq : K → K → Bool
  pub beq_iff : (a b : K) → (beq a b ≡ true) ↔ (a ≡ b)

abbrev pub Counter : Type 0 → Type 0
Counter K = List (K × ℕ)

abbrev pub keys {ℓ} : {K : Type 0} {V : Type ℓ} → List (K × V) → List K
keys [] = []
keys ((k, v) ∷ c) = k ∷ keys c

-- `sum(c.values())`, `c.total()`
abbrev pub values_sum : {K : Type 0} → Counter K → ℕ
values_sum [] = 0
values_sum ((k, n) ∷ c) = n + values_sum c

module _ {K : Type 0} ⦃e : Eq K⦄ where
  -- `d.get(k)`
  abbrev pub get {ℓ} : {V : Type ℓ} → K → List (K × V) → Option V
  get k [] = none
  get k ((j, v) ∷ c) = if e.beq j k then some v else get k c

  -- `counter[k]`: a missing key counts 0
  abbrev pub count_of : K → Counter K → ℕ
  count_of k [] = 0
  count_of k ((j, n) ∷ c) = if e.beq j k then n else count_of k c

  -- `counter[k] += w`: a new key goes to the end
  abbrev pub increment : K → ℕ → Counter K → Counter K
  increment k w [] = (k, w) ∷ []
  increment k w ((j, n) ∷ c) =
      let rest = increment k w c in if e.beq j k then (j, n + w) ∷ c else (j, n) ∷ rest

  pub values_sum-increment :
      (k : K) (w : ℕ) (c : Counter K) → values_sum (increment k w c) ≡ values_sum c + w
  values_sum-increment k w [] = omega arith
  values_sum-increment k w ((j, n) ∷ c) = ground (arith, values_sum-increment k w c)

  -- The count of one key after another (or the same) is raised.
  pub count_of-increment :
      (k j : K) (w : ℕ) (c : Counter K)
      → count_of j (increment k w c) ≡ (if e.beq k j then count_of j c + w else count_of j c)
  count_of-increment k j w [] = ground arith
  count_of-increment k j w ((i, n) ∷ c) =
      ground (arith, count_of-increment k j w c, e.beq_iff i k, e.beq_iff i j, e.beq_iff k j)

instance abbrev pub nat_eq : Eq ℕ
nat_eq = record { beq = ◌==◌; beq_iff = ==_iff }
