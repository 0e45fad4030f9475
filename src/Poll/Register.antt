-- ===== src/Poll/Register.antt =====
-- `ElectoralRegister`, `Vote.save`, `Vote.vote` and `VoteTransfer.save` of voteit/poll/models.py.
pub mod Voting
use voteit.Prelude.{
  ℕ, Bool, true, false, ◌&&◌, ◌||◌, not, Option, none, some, List, [], ◌∷◌, ◌==◌, if◌then◌else◌,
  get, nat_eq, values_sum, keys, member, is_some, select, length, distinct, exists,
}

-- `voter_data` has texts of primary keys for keys; here the keys are the numbers themselves.
pub record Register : Type 0 where
  pub pk : ℕ
  pub source : ℕ
  pub voter_data : List (ℕ × ℕ)
  pub allow_voter_data_write : Bool

pub data Error : Type 0 where
  voter_data_already_set voter_data_immutable : Error
  register_missing not_allowed_to_vote not_in_register : Error
  not_both_in_meeting : Error

pub data Result (A : Type 0) : Type 0 where
  ok : A → Result A
  err : Error → Result A

unfoldable pub has_voter : ℕ → Register → Bool
has_voter user r = member user (keys r.voter_data)

unfoldable pub get_voter_weight : ℕ → Register → Result ℕ
get_voter_weight user r = elim (get user r.voter_data) [
  | none ↦ err not_in_register
  | some w ↦ ok w
]

unfoldable pub get_total_vote_weight : Register → ℕ
get_total_vote_weight r = values_sum r.voter_data

-- `save`, with the names in `update_fields`: whether it was given, and whether "voter_data" is in it
unfoldable pub save : Bool → Bool → Register → Result Register
save in_database writes_voter_data r =
    if in_database && writes_voter_data && not r.allow_voter_data_write
    then err voter_data_immutable
    else ok (record r { allow_voter_data_write = false })

abbrev is_nil {ℓ} : {A : Type ℓ} → List A → Bool
is_nil [] = true
is_nil (_ ∷ _) = false

-- the register is in the database when its voters are set
unfoldable pub set_voters_from_dict : List (ℕ × ℕ) → Register → Result Register
unfolding save
set_voters_from_dict values r =
    if is_nil r.voter_data
    then save true true (record r { voter_data = values; allow_voter_data_write = true })
    else err voter_data_already_set

-- A vote, with its data as the poll method reads it; `none` is null.
pub record Vote (B : Type 0) : Type 0 where
  pub pk : ℕ
  pub user_id : ℕ
  pub abstain : Bool
  pub vote_data : Option B

module _ {B : Type 0} where
  -- `Vote.save`, of a poll with the register `er`
  unfoldable pub save_vote : Option Register → Vote B → Result (Vote B)
  unfolding has_voter
  save_vote none v = err register_missing
  save_vote (some er) v =
      if has_voter v.user_id er
      then ok (if v.abstain && is_some v.vote_data then record v { vote_data = none } else v)
      else err not_allowed_to_vote

  abbrev pub put_vote : Vote B → List (Vote B) → List (Vote B)
  put_vote saved [] = saved ∷ []
  put_vote saved (w ∷ ws) =
      let rest = put_vote saved ws in
      if w.user_id == saved.user_id then record saved { pk = w.pk } ∷ ws else w ∷ rest

  -- `poll.votes.update_or_create(user=…)` of the vote serializer, which saves through `Vote.save`.
  -- The database holds one vote for a user and a poll.
  unfoldable pub cast : Option Register → Vote B → List (Vote B) → Result (List (Vote B))
  unfolding save_vote
  cast er v votes = elim (save_vote er v) [ err e ↦ err e | ok saved ↦ ok (put_vote saved votes) ]

pub record VoteTransfer : Type 0 where
  pub source : ℕ
  pub target : ℕ

-- `VoteTransfer.save`: `participants` are the users with a roles row in the meeting, each once.
unfoldable pub save_transfer : List ℕ → VoteTransfer → Result VoteTransfer
save_transfer participants t =
    if length (select (λ u. t.target == u || t.source == u) participants) == 2
    then ok t
    else err not_both_in_meeting
