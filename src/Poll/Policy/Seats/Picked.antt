-- ===== src/Poll/Policy/Seats/Picked.antt =====
-- What one group does in one round, and what a round keeps.
use voteit.Prelude.{
  ℕ, zero, suc, ◌+◌, ◌≡◌, ◌≢◌, refl, Bool, true, ◌||◌, List, [], ◌∷◌, ◌==◌, nat_eq, member, every,
  distinct, length, total, arith, ◌∙◌,
}
use voteit.Poll.Policy.Seats.{
  Group, GroupRole, members_with, insert, sort_by, pick, serve, serve_all,
}

pub length-pick :
    (power : ℕ) (us dist picked : List ℕ)
    → ((pick power us dist picked).0 + length (pick power us dist picked).1.0 ≡ power + length dist)
      × (length (pick power us dist picked).1.1 + (pick power us dist picked).0
          ≡ length picked + power)
length-pick power [] dist picked = (omega arith, omega arith)
length-pick zero (u ∷ us) dist picked = (omega arith, omega arith)
length-pick (suc power) (u ∷ us) dist picked =
    ground
      (arith, length-pick (suc power) us dist picked, length-pick power us (u ∷ dist) (u ∷ picked))

distinct-pick :
    (power : ℕ) (us dist picked : List ℕ)
    → distinct picked ≡ true
    → distinct (pick power us dist picked).1.1 ≡ true
distinct-pick power [] dist picked d = d
distinct-pick zero (u ∷ us) dist picked d = d
distinct-pick (suc power) (u ∷ us) dist picked d = ground (
  arith,
  distinct-pick (suc power) us dist picked,
  distinct-pick power us (u ∷ dist) (u ∷ picked),
)

-- whoever was picked stays picked
pub member-pick_grows :
    (power : ℕ) (us dist picked : List ℕ) (k : ℕ)
    → member k picked ≡ true
    → member k (pick power us dist picked).1.1 ≡ true
member-pick_grows power [] dist picked k h = h
member-pick_grows zero (u ∷ us) dist picked k h = h
member-pick_grows (suc power) (u ∷ us) dist picked k h = ground (
  arith,
  member-pick_grows (suc power) us dist picked k,
  member-pick_grows power us (u ∷ dist) (u ∷ picked) k,
)

-- with votes left over, everybody on the list was picked
member-pick_all :
    (power : ℕ) (us dist picked : List ℕ) (k : ℕ)
    → (pick power us dist picked).0 ≢ 0
    → member k us ≡ true
    → member k (pick power us dist picked).1.1 ≡ true
member-pick_all power [] dist picked k left h = absurd (ground arith)
member-pick_all zero (u ∷ us) dist picked k left h = absurd (left refl)
member-pick_all (suc power) (u ∷ us) dist picked k left h = ground (
  arith,
  member-pick_all (suc power) us dist picked k,
  member-pick_all power us (u ∷ dist) (u ∷ picked) k,
  member-pick_grows (suc power) us dist picked k,
  member-pick_grows power us (u ∷ dist) (u ∷ picked) k,
)

-- votes go to those who had one of this group before, or are on the list
pub member-pick_dist :
    (power : ℕ) (us dist picked : List ℕ) (k : ℕ)
    → member k (pick power us dist picked).1.0 ≡ true
    → (member k dist || member k us) ≡ true
member-pick_dist power [] dist picked k h = ground arith
member-pick_dist zero (u ∷ us) dist picked k h = ground arith
member-pick_dist (suc power) (u ∷ us) dist picked k h = ground (
  arith,
  member-pick_dist (suc power) us dist picked k,
  member-pick_dist power us (u ∷ dist) (u ∷ picked) k,
)

member-insert :
    (key : ℕ → ℕ) (u k : ℕ) (vs : List ℕ) → member k (insert key u vs) ≡ (u == k || member k vs)
member-insert key u k [] = refl
member-insert key u k (v ∷ vs) = ground (arith, member-insert key u k vs)

pub member-sort_by : (key : ℕ → ℕ) (k : ℕ) (us : List ℕ) → member k (sort_by key us) ≡ member k us
member-sort_by key k [] = refl
member-sort_by key k (u ∷ us) =
    ground (arith, member-sort_by key k us, member-insert key u k (sort_by key us))

-- Everybody in `us` is in `picked`.
abbrev pub covers : List ℕ → List ℕ → Bool
covers picked us = every (λ u. member u picked) us

pub covers_intro :
    (picked us : List ℕ)
    → ((k : ℕ) → member k us ≡ true → member k picked ≡ true)
    → covers picked us ≡ true
covers_intro picked [] h = refl
covers_intro picked (u ∷ us) h =
    ground (arith, h u, covers_intro picked us (λ k m. h k (ground arith)))

pub covers-member :
    (picked us : List ℕ) (k : ℕ)
    → covers picked us ≡ true
    → member k us ≡ true
    → member k picked ≡ true
covers-member picked [] k c h = absurd (ground arith)
covers-member picked (u ∷ us) k c h = ground (arith, covers-member picked us k)

pub covers_mono :
    (a b us : List ℕ)
    → ((k : ℕ) → member k a ≡ true → member k b ≡ true)
    → covers a us ≡ true
    → covers b us ≡ true
covers_mono a b us grow c = covers_intro b us (λ k h. grow k (covers-member a us k c h))

module _ (order : ℕ → ℕ) (role : GroupRole) where
  pub member-serve :
      (g : Group) (picked : List ℕ) (k : ℕ)
      → member k picked ≡ true
      → member k (serve order role g picked).1 ≡ true
  member-serve g picked k h =
      member-pick_grows g.vote_power (sort_by order (members_with role g)) g.vote_dist picked k h

  pub member-serve_all :
      (gs : List Group) (picked : List ℕ) (k : ℕ)
      → member k picked ≡ true
      → member k (serve_all order role gs picked).1 ≡ true
  member-serve_all [] picked k h = h
  member-serve_all (g ∷ gs) picked k h =
      member-serve_all gs (serve order role g picked).1 k (member-serve g picked k h)

  pub serve-all_served :
      (g : Group) (picked : List ℕ)
      → (serve order role g picked).0.vote_power ≢ 0
      → covers (serve order role g picked).1 (members_with role g) ≡ true
  serve-all_served g picked left =
      covers_intro (serve order role g picked).1 (members_with role g) (λ k h.
        member-pick_all g.vote_power (sort_by order (members_with role g)) g.vote_dist picked k left
          (member-sort_by order k (members_with role g) ∙ h))

  pub length-serve_all :
      (gs : List Group) (picked : List ℕ)
      → length (serve_all order role gs picked).1
          + total (λ g. g.vote_power) (serve_all order role gs picked).0
        ≡ length picked + total (λ g. g.vote_power) gs
  length-serve_all [] picked = omega arith
  length-serve_all (g ∷ gs) picked = omega (
    arith,
    (length-pick g.vote_power (sort_by order (members_with role g)) g.vote_dist picked).1,
    length-serve_all gs (serve order role g picked).1,
  )

  pub distinct-serve_all :
      (gs : List Group) (picked : List ℕ)
      → distinct picked ≡ true
      → distinct (serve_all order role gs picked).1 ≡ true
  distinct-serve_all [] picked d = d
  distinct-serve_all (g ∷ gs) picked d =
      distinct-serve_all gs (serve order role g picked).1
        (distinct-pick g.vote_power (sort_by order (members_with role g)) g.vote_dist picked d)
