-- ===== src/Speaker/Methods/Gender.antt =====
-- One group of the method `gender_prio`: the rounds of `while speakers`.
pub mod Whole
use voteit.Prelude.{
  ℕ, zero, suc, ◌+◌, ◌≤◌, ◌≡◌, refl, sym, ap, ◌∙◌, Bool, true, false, not, ◌&&◌, ◌||◌, Option, none,
  some, List, [], ◌∷◌, ◌++◌, ◌==◌, select, every, length, tally, tally-append, arith, if◌then◌else◌,
}
use voteit.Speaker.{Speaker}
use voteit.Speaker.Methods.{next_prio, choose, alternate}

-- Who follows somebody without priority, as the flag says for the first, has priority himself, or
-- nobody with priority and the same key is behind him.
abbrev pub fair : (Speaker → Bool) → (Speaker → ℕ) → Bool → List Speaker → Bool
fair prio key flag [] = true
fair prio key flag (x ∷ xs) =
    (prio x || not flag || tally (λ y. prio y && key y == key x) xs == 0)
    && fair prio key (not (prio x)) xs

-- with priority or without, and with a key
abbrev pub alike : (Speaker → Bool) → (Speaker → ℕ) → Bool → ℕ → Speaker → Bool
alike prio key true k s = prio s && key s == k
alike prio key false k s = not (prio s) && key s == k

module _ (prio : Speaker → Bool) where
  -- What the choice of a round is among the speakers, the first of whom is `s`.
  record Choice (flag : Bool) (s : Speaker) (ss : List Speaker) (r : Speaker × List Speaker)
      : Type 0 where
    same_tally : (p : Speaker → Bool) → tally p (r.0 ∷ r.1) ≡ tally p (s ∷ ss)
    same_every : (p : Speaker → Bool) → every p (r.0 ∷ r.1) ≡ every p (s ∷ ss)
    one_less : length r.1 ≡ length ss
    same_order :
        (key : Speaker → ℕ) (b : Bool) (k : ℕ)
        → select (alike prio key b k) (r.0 ∷ r.1) ≡ select (alike prio key b k) (s ∷ ss)
    prefers : (prio r.0 || not flag || tally prio (s ∷ ss) == 0) ≡ true

  -- the first speaker with priority, and the others
  data Taken : List Speaker → Speaker → List Speaker → Type 0 where
    here : {s : Speaker} {ss : List Speaker} → prio s ≡ true → Taken (s ∷ ss) s ss
    later :
        {s found : Speaker} {ss left : List Speaker}
        → prio s ≡ false
        → Taken ss found left
        → Taken (s ∷ ss) found (s ∷ left)

  abbrev Found : List Speaker → Option (Speaker × List Speaker) → Type 0
  Found xs none = tally prio xs ≡ 0
  Found xs (some (found, left)) = Taken xs found left

  next_prio-Found : (xs : List Speaker) → Found xs (next_prio prio xs)
  next_prio-Found [] = refl
  next_prio-Found (x ∷ xs) = by_head (prio x) refl (next_prio prio xs) (next_prio-Found xs)
    where
      by_head :
          (b : Bool)
          → prio x ≡ b
          → (o : Option (Speaker × List Speaker)) → Found xs o
          → Found (x ∷ xs) (
              if b
              then some (x, xs)
              else elim o [ none ↦ none | some (found, left) ↦ some (found, x ∷ left) ])
      by_head true e o t = Taken.here e
      by_head false e none t = ground arith
      by_head false e (some (found, left)) t = Taken.later e t

  Taken-prio :
      {xs : List Speaker} {found : Speaker} {left : List Speaker}
      → Taken xs found left
      → prio found ≡ true
  Taken-prio (Taken.here p) = p
  Taken-prio (Taken.later p t) = Taken-prio t

  Taken-tally :
      {xs : List Speaker} {found : Speaker} {left : List Speaker} (p : Speaker → Bool)
      → Taken xs found left
      → tally p (found ∷ left) ≡ tally p xs
  Taken-tally p (Taken.here h) = refl
  Taken-tally p (Taken.later h t) = ground (arith, Taken-tally p t)

  Taken-every :
      {xs : List Speaker} {found : Speaker} {left : List Speaker} (p : Speaker → Bool)
      → Taken xs found left
      → every p (found ∷ left) ≡ every p xs
  Taken-every p (Taken.here h) = refl
  Taken-every p (Taken.later h t) = ground (arith, Taken-every p t)

  Taken-length :
      {xs : List Speaker} {found : Speaker} {left : List Speaker}
      → Taken xs found left
      → length (found ∷ left) ≡ length xs
  Taken-length (Taken.here h) = refl
  Taken-length (Taken.later h t) = ground (arith, Taken-length t)

  Taken-select :
      {xs : List Speaker} {found : Speaker} {left : List Speaker} (key : Speaker → ℕ) (b : Bool)
      (k : ℕ)
      → Taken xs found left
      → select (alike prio key b k) (found ∷ left) ≡ select (alike prio key b k) xs
  Taken-select key b k (Taken.here h) = refl
  Taken-select key true k (Taken.later h t) = ground (arith, Taken-select key true k t)
  Taken-select key false k (Taken.later h t) =
      ground (arith, Taken-select key false k t, Taken-prio t)

  Taken-Choice :
      (s : Speaker) (ss : List Speaker) (found : Speaker) (left : List Speaker)
      → Taken (s ∷ ss) found left
      → Choice true s ss (found, left)
  Taken-Choice s ss found left t = record {
    same_tally = λ p. Taken-tally p t;
    same_every = λ p. Taken-every p t;
    one_less = ground (arith, Taken-length t);
    same_order = λ key b k. Taken-select key b k t;
    prefers = ground (arith, Taken-prio t);
  }

  choose-Choice :
      (flag : Bool) (s : Speaker) (ss : List Speaker) → Choice flag s ss (choose prio flag s ss)
  choose-Choice false s ss = record {
    same_tally = λ p. refl;
    same_every = λ p. refl;
    one_less = refl;
    same_order = λ key b k. refl;
    prefers = ground arith;
  }
  choose-Choice true s ss = by_found (next_prio prio (s ∷ ss)) (next_prio-Found (s ∷ ss))
    where
      by_found :
          (o : Option (Speaker × List Speaker))
          → Found (s ∷ ss) o
          → Choice true s ss (elim o [ none ↦ (s, ss) | some r ↦ r ])
      by_found none t = record {
        same_tally = λ p. refl;
        same_every = λ p. refl;
        one_less = refl;
        same_order = λ key b k. refl;
        prefers = ground arith;
      }
      by_found (some (found, left)) t = Taken-Choice s ss found left t

  -- What the rounds make of speakers, as many as the rounds at most.
  pub record Rounds (rounds : ℕ) (flag : Bool) (xs : List Speaker) : Type 0 where
    pub same_tally : (p : Speaker → Bool) → tally p (alternate prio rounds flag xs).0 ≡ tally p xs
    pub same_every : (p : Speaker → Bool) → every p (alternate prio rounds flag xs).0 ≡ every p xs
    pub same_order :
        (key : Speaker → ℕ) (b : Bool) (k : ℕ)
        → select (alike prio key b k) (alternate prio rounds flag xs).0
          ≡ select (alike prio key b k) xs

  pub alternate-Rounds :
      (rounds : ℕ) (flag : Bool) (xs : List Speaker) → length xs ≤ rounds → Rounds rounds flag xs
  alternate-Rounds zero flag [] h = record {
    same_tally = λ p. refl;
    same_every = λ p. refl;
    same_order = λ key b k. refl;
  }
  alternate-Rounds zero flag (s ∷ ss) h = absurd (omega arith)
  alternate-Rounds (suc rounds) flag [] h = record {
    same_tally = λ p. refl;
    same_every = λ p. refl;
    same_order = λ key b k. refl;
  }
  alternate-Rounds (suc rounds) flag (s ∷ ss) h =
      let (chosen, left) = choose prio flag s ss in
      let c = choose-Choice flag s ss in
      let ih = alternate-Rounds rounds (not (prio chosen)) left (omega (arith, c.one_less)) in
      record {
        same_tally = λ p. ground (arith, c.same_tally p, ih.same_tally p);
        same_every = λ p. ground (arith, c.same_every p, ih.same_every p);
        same_order = λ key b k. rw (ih.same_order key b k) (c.same_order key b k);
      }

  tally-both :
      (q : Speaker → Bool) (xs : List Speaker)
      → (tally (λ y. prio y && q y) xs ≤ tally prio xs)
        × (tally (λ y. prio y && q y) xs ≤ tally q xs)
  tally-both q [] = ground arith
  tally-both q (x ∷ xs) = ground (arith, tally-both q xs)

  none_behind :
      (key : Speaker → ℕ) (c : Speaker) (k : ℕ) (out rest : List Speaker)
      → key c ≡ k
      → tally prio out ≡ 0
      → tally (λ y. key y == k) rest ≡ 0
      → tally (λ y. prio y && key y == key c) (out ++ rest) ≡ 0
  none_behind key c k out rest e ho hr = rw e (
      tally-append (λ y. prio y && key y == k) out rest
      ∙ ground (arith, tally-both (λ y. key y == k) out, tally-both (λ y. key y == k) rest, ho, hr))

  -- The rounds are fair, and what follows them with other keys stays fair.
  pub alternate-fair :
      (rounds : ℕ) (flag : Bool) (xs rest : List Speaker) (key : Speaker → ℕ) (k : ℕ)
      → length xs ≤ rounds
      → every (λ s. key s == k) xs ≡ true
      → tally (λ s. key s == k) rest ≡ 0
      → fair prio key (alternate prio rounds flag xs).1 rest ≡ true
      → fair prio key flag ((alternate prio rounds flag xs).0 ++ rest) ≡ true
  alternate-fair zero flag [] rest key k h e o f = f
  alternate-fair zero flag (s ∷ ss) rest key k h e o f = absurd (omega arith)
  alternate-fair (suc rounds) flag [] rest key k h e o f = f
  alternate-fair (suc rounds) flag (s ∷ ss) rest key k h e o f =
      let (chosen, left) = choose prio flag s ss in
      let c = choose-Choice flag s ss in
      let few : length left ≤ rounds = omega (arith, c.one_less) in
      let out = alternate prio rounds (not (prio chosen)) left in
      let ih = alternate-Rounds rounds (not (prio chosen)) left few in
      let fair_rest =
        alternate-fair rounds (not (prio chosen)) left rest key k few
          (ground (arith, c.same_every (λ x. key x == k))) o f in
      ground (
        arith,
        fair_rest,
        c.prefers,
        c.same_tally prio,
        ih.same_tally prio,
        c.same_every (λ x. key x == k),
        none_behind key chosen k out.0 rest,
      )
