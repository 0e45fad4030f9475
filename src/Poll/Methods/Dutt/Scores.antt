-- ===== src/Poll/Methods/Dutt/Scores.antt =====
-- The scores of a Dutt poll.
use voteit.Prelude.{
  ℕ, zero, suc, ◌+◌, ◌*◌, ◌≤◌, ◌≡◌, ap, refl, Bool, true, false, ◌||◌, not, none, List, [], ◌∷◌,
  ◌==◌, ltb, if◌then◌else◌, member, select, every, length, distinct, Counter, increment, count_of,
  nat_eq, values_sum, total, keys, arith, count_of-increment,
}
use voteit.Poll.Methods.Dutt.{
  validate_choices, Settings, validate_vote, add_choices, reformat, reformat_counter,
}

abbrev pub occurrences : ℕ → List ℕ → ℕ
occurrences p [] = 0
occurrences p (q ∷ qs) = (if q == p then 1 else 0) + occurrences p qs

count_of-add_choices :
    (p : ℕ) (choices : List ℕ) (v : ℕ) (c : Counter ℕ)
    → count_of p (add_choices choices v c) ≡ count_of p c + occurrences p choices * v
count_of-add_choices p [] v c = omega arith
count_of-add_choices p (q ∷ qs) v c =
    ground (arith, count_of-increment q p v c, count_of-add_choices p qs v (increment q v c))

count_of-reformat :
    (p : ℕ) (ballots : Counter (List ℕ)) (c : Counter ℕ)
    → count_of p (reformat ballots c)
      ≡ count_of p c + total (λ (b : List ℕ × ℕ). occurrences p b.0 * b.1) ballots
count_of-reformat p [] c = omega arith
count_of-reformat p ((choices, v) ∷ rest) c =
    omega (
      arith,
      count_of-add_choices p choices v c,
      count_of-reformat p rest (add_choices choices v c),
    )

occurrences_out : (p : ℕ) (qs : List ℕ) → member p qs ≡ false → occurrences p qs ≡ 0
occurrences_out p [] h = refl
occurrences_out p (q ∷ qs) h = ground (arith, occurrences_out p qs)

occurrences-distinct : (p : ℕ) (qs : List ℕ) → distinct qs ≡ true → occurrences p qs ≤ 1
occurrences-distinct p [] d = omega arith
occurrences-distinct p (q ∷ qs) d = ground (arith, occurrences-distinct p qs, occurrences_out p qs)

at_most : (n v : ℕ) → n ≤ 1 → n * v ≤ v
at_most zero v h = omega arith
at_most (suc zero) v h = omega arith
at_most (suc (suc n)) v h = absurd (omega arith)

total-distinct :
    (p : ℕ) (ballots : Counter (List ℕ))
    → every distinct (keys ballots) ≡ true
    → total (λ (b : List ℕ × ℕ). occurrences p b.0 * b.1) ballots ≤ values_sum ballots
total-distinct p [] d = omega arith
total-distinct p ((choices, v) ∷ rest) d = omega (
  arith,
  at_most (occurrences p choices) v (occurrences-distinct p choices (ground arith)),
  total-distinct p rest (ground arith),
)

-- The score of a proposal is, over all ballots, the weight of the votes for the ballot times the number
-- of times that the ballot names the proposal. Where no ballot names a proposal twice it is at most the
-- weight of all votes.
pub reformat_counter_lem :
    (p : ℕ) (ballots : Counter (List ℕ))
    → every distinct (keys ballots) ≡ true
    → (count_of p (reformat_counter ballots)
        ≡ total (λ (b : List ℕ × ℕ). occurrences p b.0 * b.1) ballots)
      × (count_of p (reformat_counter ballots) ≤ values_sum ballots)
unfolding reformat_counter
reformat_counter_lem p ballots d =
    let e = count_of-reformat p ballots [] in
    (omega (arith, e), omega (arith, e, total-distinct p ballots d))

abbrev pub repeated : ℕ → ℕ → List ℕ
repeated zero p = []
repeated (suc n) p = p ∷ repeated n p

occurrences-repeated : (n p : ℕ) → occurrences p (repeated n p) ≡ n
occurrences-repeated zero p = refl
occurrences-repeated (suc n) p = ground (arith, occurrences-repeated n p)

length-repeated : (n p : ℕ) → length (repeated n p) ≡ n
length-repeated zero p = refl
length-repeated (suc n) p = ground (arith, length-repeated n p)

select-repeated : (f : ℕ → Bool) (n p : ℕ) → f p ≡ false → select f (repeated n p) ≡ []
select-repeated f zero p h = refl
select-repeated f (suc n) p h = ground (arith, select-repeated f n p)

every-repeated : (f : ℕ → Bool) (n p : ℕ) → f p ≡ true → every f (repeated n p) ≡ true
every-repeated f zero p h = refl
every-repeated f (suc n) p h = ground (arith, every-repeated f n p)

-- Nothing stops a ballot from naming one proposal again and again: as often as the settings allow
-- choices such a ballot is valid, and it scores its weight that many times for the proposal.
pub repeated_choice :
    (s : Settings) (proposals : List ℕ) (n p w : ℕ)
    → member p proposals ≡ true
    → 1 ≤ p
    → s.min ≤ n
    → (s.max == 0 || not (ltb s.max n)) ≡ true
    → (validate_choices (repeated n p) ≡ true)
      × (validate_vote s proposals (repeated n p) ≡ none)
      × (count_of p (reformat_counter ((repeated n p, w) ∷ [])) ≡ n * w)
unfolding validate_vote validate_choices reformat_counter
repeated_choice s proposals n p w known positive enough few = (
  every-repeated (λ i. not (ltb i 1)) n p (ground arith),
  ground (
    arith,
    length-repeated n p,
    select-repeated (λ pk. not (member pk proposals || member pk [])) n p,
  ),
  omega (
    arith,
    count_of-add_choices p (repeated n p) w [],
    ap (λ (k : ℕ). k * w) (occurrences-repeated n p),
  ),
)
