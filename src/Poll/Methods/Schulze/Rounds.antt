-- ===== src/Poll/Methods/Schulze/Rounds.antt =====
-- Whom Schulze polls approve and deny.
use voteit.Prelude.{
  ℕ, zero, suc, ◌≤◌, ◌≡◌, refl, Bool, true, false, ◌&&◌, ◌||◌, not, some, List, [], ◌∷◌, ◌==◌,
  member, select, length, Counter, keys, distinct, arith, member-select, Option-cases, inl, inr,
}
use voteit.Poll.Ballots.{PollResult}
use voteit.Poll.Methods.{decided}
use voteit.Poll.Methods.Schulze.{
  Ballots, on_ballots, Round, SchulzeMethod, schulze_format, schulze_result, without, eliminate,
  winners, elected, play, repeated_result, verdict,
}

member-without :
    (w k : ℕ) (d : List (ℕ × ℕ))
    → member k (keys (without w d)) ≡ (not (w == k) && member k (keys d))
member-without w k [] = ground arith
member-without w k ((j, v) ∷ d) = ground (arith, member-without w k d)

on_ballots-eliminate :
    (w k : ℕ) (bs : Ballots) → on_ballots k (eliminate w bs) ≡ (not (w == k) && on_ballots k bs)
on_ballots-eliminate w k [] = ground arith
on_ballots-eliminate w k ((n, ballot) ∷ bs) =
    ground (arith, member-without w k ballot, on_ballots-eliminate w k bs)

module _ (method : SchulzeMethod) where
  -- With a result, a Schulze poll approves the winner, and nothing if the winner is the option to deny
  -- all, 0; it denies every other candidate but 0, and nothing that is on no ballot.
  pub schulze_result_lem :
      (k : ℕ) (counter : Counter (List (ℕ × ℕ))) (r : Round)
      → method.rank (schulze_format counter) ≡ some r
      → (out : PollResult) × (schulze_result method counter ≡ some out)
        × (member k out.approved ≡ (r.winner == k && not (k == 0)))
        × (member k out.denied
            ≡ (on_ballots k (schulze_format counter) && not (k == 0) && not (r.winner == k)))
  unfolding schulze_result
  schulze_result_lem k counter r ranked = (
    verdict r,
    ground arith,
    ground arith,
    ground (
      arith,
      method.candidates_on_ballots (schulze_format counter) r k ranked,
      member-select (λ x. not (x == 0)) k r.candidates,
      member-select (λ x. not (x == 0) && not (x == r.winner)) k r.candidates,
    ),
  )

  play-winner :
      (deny : Bool) (n : ℕ) (bs : Ballots) (rs : List Round) (k : ℕ)
      → play method deny n bs ≡ some rs
      → member k (winners rs) ≡ true
      → on_ballots k bs ≡ true
  play-winner deny zero bs rs k h m = absurd (ground arith)
  play-winner deny (suc n) bs rs k h m = elim (Option-cases (method.rank bs)) [
    | inl stop ↦ absurd (ground arith)
    | inr (r, ranked) ↦ elim (Option-cases (play method deny n (eliminate r.winner bs))) [
      | inl stop ↦
          ground
            (arith, method.candidates_on_ballots bs r k ranked, method.winner_candidate bs r ranked)
      | inr (more, played) ↦ ground (
        arith,
        method.candidates_on_ballots bs r k ranked,
        method.winner_candidate bs r ranked,
        play-winner deny n (eliminate r.winner bs) more k played,
        on_ballots-eliminate r.winner k bs,
      )
    ]
  ]

  play-distinct :
      (deny : Bool) (n : ℕ) (bs : Ballots) (rs : List Round)
      → play method deny n bs ≡ some rs
      → (distinct (winners rs) ≡ true) × (length rs ≤ n)
  play-distinct deny zero bs rs h = ground arith
  play-distinct deny (suc n) bs rs h = elim (Option-cases (method.rank bs)) [
    | inl stop ↦ absurd (ground arith)
    | inr (r, ranked) ↦ elim (Option-cases (play method deny n (eliminate r.winner bs))) [
      | inl stop ↦ ground arith
      | inr (more, played) ↦ ground (
        arith,
        play-distinct deny n (eliminate r.winner bs) more played,
        play-winner deny n (eliminate r.winner bs) more r.winner played,
        on_ballots-eliminate r.winner r.winner bs,
      )
    ]
  ]

  play-first :
      (deny : Bool) (n : ℕ) (bs : Ballots) (r : Round) (rs : List Round)
      → play method deny n bs ≡ some (r ∷ rs)
      → method.rank bs ≡ some r
  play-first deny zero bs r rs h = absurd (ground arith)
  play-first deny (suc n) bs r rs h = ground arith

  distinct-select :
      (p : ℕ → Bool) (xs : List ℕ) → distinct xs ≡ true → distinct (select p xs) ≡ true
  distinct-select p [] d = refl
  distinct-select p (x ∷ xs) d = ground (arith, distinct-select p xs, member-select p x xs)

  length-select : (p : ℕ → Bool) (xs : List ℕ) → length (select p xs) ≤ length xs
  length-select p [] = omega arith
  length-select p (x ∷ xs) = ground (arith, length-select p xs)

  length-winners : (rs : List Round) → length (winners rs) ≡ length rs
  length-winners [] = refl
  length-winners (r ∷ rs) = ground (arith, length-winners rs)

  -- A repeated Schulze poll for `n` winners that has a result approves at most `n` proposals, none of
  -- them twice; and of the candidates on the ballots, the option to deny all apart, each is approved or
  -- denied, and none is both.
  pub repeated_result_lem :
      (k n proposals : ℕ) (deny : Bool) (counter : Counter (List (ℕ × ℕ))) (out : PollResult)
      → repeated_result method deny (some n) proposals counter ≡ some out
      → (distinct out.approved ≡ true)
        × (length out.approved ≤ n)
        × ((member k out.approved || member k out.denied)
            ≡ (on_ballots k (schulze_format counter) && not (k == 0)))
        × ((member k out.approved && member k out.denied) ≡ false)
  unfolding repeated_result
  repeated_result_lem k n proposals deny counter out h =
      elim (Option-cases (play method deny n (schulze_format counter))) [
        | inl stop ↦ absurd (ground arith)
        | inr ([], played) ↦ absurd (ground arith)
        | inr (r ∷ rs, played) ↦
            let bs = schulze_format counter in
            let (single, few) = play-distinct deny n bs (r ∷ rs) played in
            let made : out
                ≡ decided (elected (r ∷ rs))
                    (select (λ x. not (member x (elected (r ∷ rs))) && not (x == 0)) r.candidates) =
              ground arith in
            rw made (
              distinct-select (λ x. not (x == 0)) (winners (r ∷ rs)) single,
              omega (
                arith,
                few,
                length-select (λ x. not (x == 0)) (winners (r ∷ rs)),
                length-winners (r ∷ rs),
              ),
              ground (
                arith,
                method.candidates_on_ballots bs r k (play-first deny n bs r rs played),
                play-winner deny n bs (r ∷ rs) k played,
                member-select (λ x. not (x == 0)) k (winners (r ∷ rs)),
                member-select (λ x. not (member x (elected (r ∷ rs))) && not (x == 0)) k
                    r.candidates,
              ),
              ground (
                arith,
                member-select (λ x. not (member x (elected (r ∷ rs))) && not (x == 0)) k
                    r.candidates,
              ),
            )
      ]
