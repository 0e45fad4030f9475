-- ===== src/Poll/Policy/Seats.antt =====
-- Votes for main and substitute members of groups: `MainSubstActivePolicy.get_voters` of
-- voteit/poll/app/er_policies/main_or_subst_er.py, in a meeting that has both group roles. The marks on
-- memberships that its argument `update_memberships` asks for are left out.
pub mod Picked
pub mod Fair
use voteit.Prelude.{
  ℕ, zero, suc, ◌+◌, Bool, true, false, ◌&&◌, ◌||◌, not, Option, none, some, List, [], ◌∷◌, ◌++◌,
  ◌==◌, ltb, leb, if◌then◌else◌, nat_eq, member, select, exists, map, remove,
}
use voteit.Poll.Policy.{one_each}

-- `sort(key=…)`, which is stable
abbrev pub insert : (ℕ → ℕ) → ℕ → List ℕ → List ℕ
insert key u [] = u ∷ []
insert key u (v ∷ vs) =
    let rest = insert key u vs in if leb (key u) (key v) then u ∷ v ∷ vs else v ∷ rest

abbrev pub sort_by : (ℕ → ℕ) → List ℕ → List ℕ
sort_by key [] = []
sort_by key (u ∷ us) = insert key u (sort_by key us)

-- A group with votes: how many are left, the members with each role who count at all (by user), and
-- the users to whom its votes went.
pub record Group : Type 0 where
  pub vote_power : ℕ
  pub main : List ℕ
  pub substitute : List ℕ
  pub vote_dist : List ℕ

pub data GroupRole : Type 0 where
  main_role subst_role : GroupRole

abbrev pub members_with : GroupRole → Group → List ℕ
members_with main_role g = g.main
members_with subst_role g = g.substitute

-- The loop over the members of a group, with its votes left, the group's and all picked voters.
abbrev pub pick : ℕ → List ℕ → List ℕ → List ℕ → ℕ × (List ℕ × List ℕ)
pick power [] dist picked = (power, (dist, picked))
pick zero (u ∷ us) dist picked = (zero, (dist, picked))
pick (suc power) (u ∷ us) dist picked =
    let skipped = pick (suc power) us dist picked in
    let taken = pick power us (u ∷ dist) (u ∷ picked) in if member u picked then skipped else taken

abbrev pub serve : (ℕ → ℕ) → GroupRole → Group → List ℕ → Group × List ℕ
serve order role g picked =
    let (power, (dist, picked')) =
      pick g.vote_power (sort_by order (members_with role g)) g.vote_dist picked in
    (record g { vote_power = power; vote_dist = dist }, picked')

-- the loop over the groups
abbrev pub serve_all : (ℕ → ℕ) → GroupRole → List Group → List ℕ → List Group × List ℕ
serve_all order role [] picked = ([], picked)
serve_all order role (g ∷ gs) picked =
    let (g', picked') = serve order role g picked in
    let (gs', picked'') = serve_all order role gs picked' in (g' ∷ gs', picked'')

-- main members first, then substitutes
abbrev pub distribute : (ℕ → ℕ) → List Group → List Group × List ℕ
distribute order gs =
    let (gs', picked) = serve_all order main_role gs [] in serve_all order subst_role gs' picked

unfoldable pub main_subst_voters : (ℕ → ℕ) → List Group → List (ℕ × ℕ)
main_subst_voters order gs = one_each (distribute order gs).1
