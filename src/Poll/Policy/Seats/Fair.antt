-- ===== src/Poll/Policy/Seats/Fair.antt =====
-- The votes of groups with main and substitute members: how many, to whom, and in which order.
use voteit.Prelude.{
  ℕ, zero, suc, ◌+◌, ◌≡◌, refl, ap, Bool, true, false, ◌&&◌, ◌||◌, List, [], ◌∷◌, ◌==◌, member,
  every, distinct, length, total, arith, values_sum, keys, nat_eq,
}
use voteit.Poll.Policy.{one_each}
use voteit.Poll.Policy.Seats.{
  Group, GroupRole, main_role, subst_role, members_with, sort_by, pick, serve, serve_all,
  distribute, main_subst_voters,
}
use voteit.Poll.Policy.Seats.Picked.{
  covers, covers_intro, covers_mono, member-serve, member-serve_all, serve-all_served,
  length-serve_all, distinct-serve_all, member-pick_dist, member-sort_by,
}

abbrev is_nil : List ℕ → Bool
is_nil [] = true
is_nil (_ ∷ _) = false

abbrev Grows : (Group → List ℕ → Bool) → Type 0
Grows q =
    (g : Group) (a b : List ℕ)
    → ((k : ℕ) → member k a ≡ true → member k b ≡ true)
    → q g a ≡ true
    → q g b ≡ true

-- A round turns what holds of every group into what one group's turn makes of it.
serve_all-every :
    (order : ℕ → ℕ) (role : GroupRole) (before after : Group → List ℕ → Bool)
    → Grows before
    → Grows after
    → ((g : Group) (p : List ℕ)
        → before g p ≡ true
        → after (serve order role g p).0 (serve order role g p).1 ≡ true)
    → (gs : List Group) (p : List ℕ) → every (λ g. before g p) gs ≡ true
    → every (λ g. after g (serve_all order role gs p).1) (serve_all order role gs p).0 ≡ true
serve_all-every order role before after grow grow' turn [] p h = refl
serve_all-every order role before after grow grow' turn (g ∷ gs) p h =
    let (g', p') = serve order role g p in
    let later = serve_all order role gs p' in
    let first : after g' later.1 ≡ true =
      grow' g' p' later.1 (member-serve_all order role gs p') (turn g p (ground arith)) in
    let rest : every (λ x. before x p') gs ≡ true = every-grows gs (ground arith) in
    ground (arith, first, serve_all-every order role before after grow grow' turn gs p' rest)
  where
    every-grows :
        (xs : List Group)
        → every (λ x. before x p) xs ≡ true
        → every (λ x. before x (serve order role g p).1) xs ≡ true
    every-grows [] e = refl
    every-grows (x ∷ xs) e = ground (
      arith,
      every-grows xs,
      grow x p (serve order role g p).1 (member-serve order role g p) (ground arith),
    )

-- No vote of the group was given yet.
abbrev pub untouched : Group → Bool
untouched g = is_nil g.vote_dist

abbrev after_main : Group → List ℕ → Bool
after_main g picked = covers picked g.main || (g.vote_power == 0 && covers g.main g.vote_dist)

-- If a main member has no vote, all votes of the group that were given went to main members; and if
-- any vote is left, every member has a vote.
abbrev pub fair : Group → List ℕ → Bool
fair g picked =
    (covers picked g.main || covers g.main g.vote_dist)
    && (g.vote_power == 0 || (covers picked g.main && covers picked g.substitute))

after_main-Grows : Grows after_main
after_main-Grows g a b grow h = ground (arith, covers_mono a b g.main grow)

fair-Grows : Grows fair
fair-Grows g a b grow h =
    ground (arith, covers_mono a b g.main grow, covers_mono a b g.substitute grow)

pick-empty :
    (n : ℕ) (us dist picked : List ℕ)
    → n ≡ 0
    → ((pick n us dist picked).0 ≡ 0) × ((pick n us dist picked).1.0 ≡ dist)
pick-empty n [] dist picked e = (e, refl)
pick-empty zero (u ∷ us) dist picked e = (refl, refl)
pick-empty (suc n) (u ∷ us) dist picked e = absurd (omega (arith, e))

keys-one_each : (us : List ℕ) → keys (one_each us) ≡ us
keys-one_each [] = refl
keys-one_each (u ∷ us) = ap (λ (vs : List ℕ). u ∷ vs) (keys-one_each us)

values_sum-one_each : (us : List ℕ) → values_sum (one_each us) ≡ length us
values_sum-one_each [] = refl
values_sum-one_each (u ∷ us) = omega (arith, values_sum-one_each us)

module _ (order : ℕ → ℕ) where
  main_turn :
      (g : Group) (p : List ℕ)
      → untouched g ≡ true
      → after_main (serve order main_role g p).0 (serve order main_role g p).1 ≡ true
  main_turn g p fresh = ground (
    arith,
    serve-all_served order main_role g p,
    covers_intro g.main (serve order main_role g p).0.vote_dist (λ k h. ground (
      arith,
      member-pick_dist g.vote_power (sort_by order g.main) g.vote_dist p k h,
      member-sort_by order k g.main,
    )),
  )

  serve-empty :
      (role : GroupRole) (g : Group) (p : List ℕ)
      → g.vote_power ≡ 0
      → ((serve order role g p).0.vote_power ≡ 0)
        × ((serve order role g p).0.vote_dist ≡ g.vote_dist)
  serve-empty role g p none_left =
      pick-empty g.vote_power (sort_by order (members_with role g)) g.vote_dist p none_left

  subst_turn :
      (g : Group) (p : List ℕ)
      → after_main g p ≡ true
      → fair (serve order subst_role g p).0 (serve order subst_role g p).1 ≡ true
  subst_turn g p h = ground (
    arith,
    serve-all_served order subst_role g p,
    serve-empty subst_role g p,
    covers_mono p (serve order subst_role g p).1 g.main (member-serve order subst_role g p),
  )

  -- With no vote given yet: nobody gets two votes; the votes given and the votes left are the votes of
  -- the groups; and in every group, votes are left only if every member has a vote, and have gone to
  -- others than main members only if every main member has one.
  pub main_subst_voters_lem :
      (gs : List Group)
      → every untouched gs ≡ true
      → (distinct (keys (main_subst_voters order gs)) ≡ true)
        × (values_sum (main_subst_voters order gs)
              + total (λ g. g.vote_power) (distribute order gs).0
            ≡ total (λ g. g.vote_power) gs)
        × (every (λ g. fair g (keys (main_subst_voters order gs))) (distribute order gs).0 ≡ true)
  unfolding main_subst_voters
  main_subst_voters_lem gs fresh =
      let mains = serve_all order main_role gs [] in
      let all = distribute order gs in
      let middle : every (λ g. after_main g mains.1) mains.0 ≡ true =
        serve_all-every order main_role (λ g p. untouched g) after_main (λ g a b grow h. h)
          after_main-Grows main_turn gs [] fresh in
      let done : every (λ g. fair g all.1) all.0 ≡ true =
        serve_all-every order subst_role after_main fair after_main-Grows fair-Grows subst_turn
          mains.0 mains.1 middle in
      let single : distinct all.1 ≡ true =
        distinct-serve_all order subst_role mains.0 mains.1
          (distinct-serve_all order main_role gs [] refl) in
      (
        rw (keys-one_each all.1) single,
        omega (
          arith,
          values_sum-one_each all.1,
          length-serve_all order main_role gs [],
          length-serve_all order subst_role mains.0 mains.1,
        ),
        rw (keys-one_each all.1) done,
      )
