-- ===== src/Speaker/Reordered.antt =====
-- What reordering a speaker list does to its order.
use voteit.Prelude.{
  ℕ, suc, ◌+◌, ◌≤◌, ◌≡◌, refl, sym, ap, ◌∙◌, Bool, true, not, ◌&&◌, List, [], ◌∷◌, ◌++◌, ◌==◌, ltb,
  leb, map, every, select, take, drop, tally, tally-append, tally-select, tally-sort_with,
  ascending, ascending-sort_with, take-drop, arith,
}
use mathlib.Core.Path.{ap₂}
use voteit.Speaker.{
  Speaker, SpeakerList, ListMethod, unfinished, index, order_le, incoming_order, safe_count,
  reorder,
}

abbrev pub of_user : ℕ → Speaker → Bool
of_user u s = s.user == u

-- an item of the user that is not finished
abbrev pub waiting : ℕ → Speaker → Bool
waiting u s = unfinished s && s.user == u

tally-users :
    (u : ℕ) (ss : List Speaker) → tally (λ v. v == u) (map (λ s. s.user) ss) ≡ tally (of_user u) ss
tally-users u [] = refl
tally-users u (s ∷ ss) = ground (arith, tally-users u ss)

pub tally-incoming_order :
    (u : ℕ) (order : List ℕ) (l : SpeakerList)
    → tally (of_user u) (incoming_order order l) ≡ tally (waiting u) l.items
tally-incoming_order u order l =
    tally-sort_with (order_le order) (of_user u) (select unfinished l.items)
    ∙ tally-select (of_user u) unfinished l.items

-- Reordering by any order leaves each user in the order of the list exactly as often as he has an
-- item that is not finished.
pub reorder-order :
    (method : ListMethod) (order : List ℕ) (l : SpeakerList) (u : ℕ)
    → tally (λ v. v == u) (reorder method order l).order ≡ tally (waiting u) l.items
unfolding reorder
reorder-order method order l u =
    let incoming = incoming_order order l in
    let n = safe_count l incoming in
    let safe = take n incoming in
    let rest = drop n incoming in
    tally-users u (safe ++ method.reorder l.items safe rest)
    ∙ tally-append (of_user u) safe (method.reorder l.items safe rest)
    ∙ ap (λ k. tally (of_user u) safe + k) (method.tally-reorder l.items safe rest (of_user u))
    ∙ sym (tally-append (of_user u) safe rest)
    ∙ ap (tally (of_user u)) (take-drop n incoming)
    ∙ tally-incoming_order u order l

-- keys go up strictly
abbrev pub climbing : (ℕ → ℕ) → List ℕ → Bool
climbing key [] = true
climbing key (v ∷ vs) = every (λ w. ltb (key v) (key w)) vs && climbing key vs

ltb-found :
    (key : ℕ → ℕ) (a u : ℕ) (vs : List ℕ)
    → every (λ w. ltb a (key w)) vs ≡ true
    → 1 ≤ tally (λ v. v == u) vs
    → ltb a (key u) ≡ true
ltb-found key a u [] h k = ground arith
ltb-found key a u (v ∷ vs) h k = ground (arith, ltb-found key a u vs)

leb-found :
    (key : ℕ → ℕ) (a u : ℕ) (ss : List Speaker)
    → every (λ s. leb a (key s.user)) ss ≡ true
    → 1 ≤ tally (of_user u) ss
    → leb a (key u) ≡ true
leb-found key a u [] h k = ground arith
leb-found key a u (s ∷ ss) h k = ground (arith, leb-found key a u ss)

-- the least of the speakers has the least user
first-user :
    (key : ℕ → ℕ) (v : ℕ) (vs : List ℕ) (s : Speaker) (ss : List Speaker)
    → climbing key (v ∷ vs) ≡ true
    → ascending (λ x. key x.user) (s ∷ ss) ≡ true
    → ((u : ℕ) → tally (of_user u) (s ∷ ss) ≡ tally (λ w. w == u) (v ∷ vs))
    → s.user ≡ v
first-user key v vs s ss c a h =
    ground (arith, h v, h s.user, ltb-found key (key v) s.user vs, leb-found key (key s.user) v ss)

-- Speakers that ascend by a key are in the one order of their users in which the key climbs.
climbing-users :
    (key : ℕ → ℕ) (vs : List ℕ) (ss : List Speaker)
    → climbing key vs ≡ true
    → ascending (λ x. key x.user) ss ≡ true
    → ((u : ℕ) → tally (of_user u) ss ≡ tally (λ w. w == u) vs)
    → map (λ s. s.user) ss ≡ vs
climbing-users key [] [] c a h = refl
climbing-users key [] (s ∷ ss) c a h = ground (arith, h s.user)
climbing-users key (v ∷ vs) [] c a h = ground (arith, h v)
climbing-users key (v ∷ vs) (s ∷ ss) c a h =
    let same = first-user key v vs s ss c a h in
    ap₂ ◌∷◌ same
      (climbing-users key vs ss (ground arith) (ground arith) (λ u. ground (arith, h u, same)))

raise-index :
    (a v : ℕ) (vs ws : List ℕ)
    → every (λ w. not (w == v)) ws ≡ true
    → every (λ w. ltb a (index vs w)) ws ≡ true
    → every (λ w. ltb (suc a) (index (v ∷ vs) w)) ws ≡ true
raise-index a v vs [] h c = refl
raise-index a v vs (w ∷ ws) h c = ground (arith, raise-index a v vs ws)

climbing-index :
    (v : ℕ) (vs ws : List ℕ)
    → every (λ w. not (w == v)) ws ≡ true
    → climbing (index vs) ws ≡ true
    → climbing (index (v ∷ vs)) ws ≡ true
climbing-index v vs [] h c = refl
climbing-index v vs (w ∷ ws) h c =
    ground (arith, climbing-index v vs ws, raise-index (index vs w) v vs ws)

every-not_equal :
    (v : ℕ) (ws : List ℕ) → tally (λ w. w == v) ws ≡ 0 → every (λ w. not (w == v)) ws ≡ true
every-not_equal v [] h = refl
every-not_equal v (w ∷ ws) h = ground (arith, every-not_equal v ws)

every-index :
    (v : ℕ) (vs ws : List ℕ)
    → every (λ w. not (w == v)) ws ≡ true
    → every (λ w. ltb 0 (index (v ∷ vs) w)) ws ≡ true
every-index v vs [] h = refl
every-index v vs (w ∷ ws) h = ground (arith, every-index v vs ws)

-- The places in a list without repetitions climb along it, also with one more element behind it.
pub climbing-append :
    (vs ws : List ℕ)
    → climbing (index []) ws ≡ true
    → ((u : ℕ) → tally (λ w. w == u) (vs ++ ws) ≤ 1)
    → climbing (index vs) (vs ++ ws) ≡ true
climbing-append [] ws c h = c
climbing-append (v ∷ vs) ws c h =
    let fresh = every-not_equal v (vs ++ ws) (ground (arith, h v)) in
    ground (
      arith,
      fresh,
      climbing-append vs ws c (λ u. ground (arith, h u)),
      climbing-index v vs (vs ++ ws) fresh,
      every-index v vs (vs ++ ws) fresh,
    )

ascending-incoming_order :
    (order : List ℕ) (l : SpeakerList)
    → ascending (λ s. index order s.user) (incoming_order order l) ≡ true
ascending-incoming_order order l =
    ascending-sort_with (order_le order) (λ s. index order s.user) (λ x y. ground arith)
      (λ x y. ground arith) (select unfinished l.items)

-- Where the users with an item that is not finished are those of a list, once each, in which the
-- places in the order climb, they come in this list's order.
pub incoming_order-climbing :
    (l : SpeakerList) (order vs : List ℕ)
    → climbing (index order) vs ≡ true
    → ((u : ℕ) → tally (λ v. v == u) vs ≡ tally (waiting u) l.items)
    → map (λ s. s.user) (incoming_order order l) ≡ vs
incoming_order-climbing l order vs c same =
    climbing-users (index order) vs (incoming_order order l) c (ascending-incoming_order order l)
      (λ u. tally-incoming_order u order l ∙ sym (same u))

-- Where the users with an item that is not finished are those of an order, once each, and at most
-- one more, they come in this order, and the one after them.
pub incoming_order-users :
    (l : SpeakerList) (order more : List ℕ)
    → climbing (index []) more ≡ true
    → ((u : ℕ) → tally (waiting u) l.items ≤ 1)
    → ((u : ℕ) → tally (λ v. v == u) (order ++ more) ≡ tally (waiting u) l.items)
    → map (λ s. s.user) (incoming_order order l) ≡ order ++ more
incoming_order-users l order more c once same =
    incoming_order-climbing l order (order ++ more)
      (climbing-append order more c (λ u. ground (arith, same u, once u))) same
