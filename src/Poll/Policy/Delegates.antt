-- ===== src/Poll/Policy/Delegates.antt =====
-- Transfers of votes from main to substitute members: `MainAndSubstVT.check`, the receiver
-- `check_role_added`, and `MainSubstDelegatePolicy.get_voters`
-- (voteit/poll/app/er_policies/main_subst_delegate.py).
pub mod Transfers
use voteit.Prelude.{
  ℕ, Bool, true, false, ◌&&◌, ◌||◌, not, Option, none, some, List, [], ◌∷◌, ◌==◌, if◌then◌else◌,
  nat_eq, member, select, exists, remove,
}
use voteit.Poll.Register.{VoteTransfer}
use voteit.Poll.Policy.{one_each}

-- A role in a group of the meeting; of other roles than these two nothing here depends.
pub record Membership : Type 0 where
  pub group : ℕ
  pub user : ℕ
  pub is_main : Bool

pub data Error : Type 0 where
  already_delegates target_is_main no_common_group : Error

abbrev pub main_in : ℕ → ℕ → List Membership → Bool
main_in group user ms = exists (λ m. m.group == group && m.user == user && m.is_main) ms

abbrev pub subst_in : ℕ → ℕ → List Membership → Bool
subst_in group user ms = exists (λ m. m.group == group && m.user == user && not m.is_main) ms

abbrev pub is_main : ℕ → List Membership → Bool
is_main user ms = exists (λ m. m.user == user && m.is_main) ms

-- a group in which the source is main and the target substitute
abbrev common_group : ℕ → ℕ → List Membership → List Membership → Bool
common_group source target ms all =
    exists (λ m. m.user == source && m.is_main && subst_in m.group target all) ms

abbrev pub involved : ℕ → List VoteTransfer → Bool
involved user ts = exists (λ t. t.target == user || t.source == user) ts

-- `check`; `others` are the meeting's transfers but the one that is modified
unfoldable pub check : ℕ → ℕ → List Membership → List VoteTransfer → Option Error
check source target ms others =
    if involved target others
    then some already_delegates
    else if is_main target ms
    then some target_is_main
    else if common_group source target ms ms
    then none
    else some no_common_group

-- the users with the role main, as a set
abbrev add_user : ℕ → List ℕ → List ℕ
add_user u us = if member u us then us else u ∷ us

abbrev pub main_users : List Membership → List ℕ
main_users [] = []
main_users (m ∷ ms) = let rest = main_users ms in if m.is_main then add_user m.user rest else rest

-- `voters.remove(…)` raises where there is nothing to remove.
abbrev pub transfer_all : List VoteTransfer → List ℕ → Option (List ℕ)
transfer_all [] voters = some voters
transfer_all (t ∷ ts) voters =
    let with_target = add_user t.target voters in
    let rest = transfer_all ts (remove t.source with_target) in
    if member t.source with_target then rest else none

abbrev pub effective : List ℕ → List VoteTransfer → List VoteTransfer
effective voters ts = select (λ t. member t.source voters) ts

unfoldable pub delegated_voters : List Membership → List VoteTransfer → Option (List (ℕ × ℕ))
delegated_voters ms ts = elim (transfer_all (effective (main_users ms) ts) (main_users ms)) [
  | none ↦ none
  | some voters ↦ some (one_each voters)
]

-- `check_role_added`, where the added role is main
unfoldable pub check_role_added : ℕ → List VoteTransfer → List VoteTransfer
check_role_added user ts = select (λ t. not (t.target == user)) ts
