-- ===== src/Poll/Register/Voting.antt =====
-- Who is let vote, what is stored, and that a register's voters are written once.
use voteit.Prelude.{
  ℕ, ◌+◌, ◌≤◌, ◌≡◌, ◌≢◌, refl, Bool, true, ◌||◌, Option, none, some, List, [], ◌∷◌, ◌==◌,
  if◌then◌else◌, nat_eq, member, select, length, distinct, arith, ap, Bool-cases, inl, inr,
}
use voteit.Poll.Register.{
  Register, ok, err, has_voter, save, set_voters_from_dict, Vote, save_vote, VoteTransfer,
  save_transfer, voter_data_already_set, voter_data_immutable, not_allowed_to_vote, cast, put_vote,
}

-- Once a register has voters, they are never written again: not by `set_voters_from_dict`, and not
-- by a save of that column after they were set.
pub voters_written_once :
    (values others : List (ℕ × ℕ)) (pair : ℕ × ℕ) (r r' : Register)
    → set_voters_from_dict (pair ∷ values) r ≡ ok r'
    → (r'.voter_data ≡ pair ∷ values)
      × (set_voters_from_dict others r' ≡ err voter_data_already_set)
      × (save true true r' ≡ err voter_data_immutable)
unfolding set_voters_from_dict
voters_written_once values others pair r r' h = (ground arith, ground arith, ground arith)

module _ {B : Type 0} where
  -- A vote is stored exactly for users of the poll's register, and an abstention is stored with no
  -- vote data; nothing else of the vote changes.
  pub save_vote_lem :
      (er : Register) (v : Vote B)
      → save_vote (some er) v ≡ (
          if has_voter v.user_id er
          then ok (record v { vote_data = if v.abstain then none else v.vote_data })
          else err not_allowed_to_vote)
  unfolding save_vote
  save_vote_lem er v = ground arith

  abbrev pub voters_of : List (Vote B) → List ℕ
  voters_of [] = []
  voters_of (v ∷ vs) = v.user_id ∷ voters_of vs

  -- the vote of a user
  abbrev pub vote_of : ℕ → List (Vote B) → Option (Vote B)
  vote_of user [] = none
  vote_of user (v ∷ vs) = if v.user_id == user then some v else vote_of user vs

  member-put_vote :
      (u : ℕ) (v : Vote B) (vs : List (Vote B))
      → member u (voters_of (put_vote v vs)) ≡ (v.user_id == u || member u (voters_of vs))
  member-put_vote u v [] = refl
  member-put_vote u v (w ∷ ws) = ground (arith, member-put_vote u v ws)

  distinct-put_vote :
      (v : Vote B) (vs : List (Vote B))
      → distinct (voters_of vs) ≡ true
      → distinct (voters_of (put_vote v vs)) ≡ true
  distinct-put_vote v [] d = refl
  distinct-put_vote v (w ∷ ws) d =
      ground (arith, distinct-put_vote v ws, member-put_vote w.user_id v ws)

  vote_of-put_vote :
      (u : ℕ) (v : Vote B) (vs : List (Vote B))
      → u ≢ v.user_id
      → vote_of u (put_vote v vs) ≡ vote_of u vs
  vote_of-put_vote u v [] other = ground arith
  vote_of-put_vote u v (w ∷ ws) other = ground (arith, vote_of-put_vote u v ws)

  vote_of-put_vote_self :
      (v : Vote B) (vs : List (Vote B))
      → (w : Vote B) × (vote_of v.user_id (put_vote v vs) ≡ some w)
        × (w.abstain ≡ v.abstain)
        × (w.vote_data ≡ v.vote_data)
  vote_of-put_vote_self v [] = (v, ground arith, refl, refl)
  vote_of-put_vote_self v (w ∷ ws) = elim (Bool-cases (w.user_id == v.user_id)) [
    | inl same ↦ (record v { pk = w.pk }, ground arith, refl, refl)
    | inr other ↦ let (x, found, a, b) = vote_of-put_vote_self v ws in (x, ground arith, a, b)
  ]

  -- Casting a vote leaves one vote for each user: the user's is the vote that was cast, whether he
  -- had voted before or not, and every other user's is as it was.
  pub cast_lem :
      (er : Register) (v : Vote B) (votes votes' : List (Vote B)) (other : ℕ)
      → distinct (voters_of votes) ≡ true
      → cast (some er) v votes ≡ ok votes'
      → other ≢ v.user_id
      → (distinct (voters_of votes') ≡ true)
        × (vote_of other votes' ≡ vote_of other votes)
        × ((w : Vote B) × (vote_of v.user_id votes' ≡ some w)
            × (w.abstain ≡ v.abstain)
            × (w.vote_data ≡ (if v.abstain then none else v.vote_data)))
  unfolding cast
  cast_lem er v votes votes' other d h apart =
      let saved : Vote B = record v { vote_data = if v.abstain then none else v.vote_data } in
      let (w, found, a, b) = vote_of-put_vote_self saved votes in
      let e : votes' ≡ put_vote saved votes = ground arith in
      (
        rw e (distinct-put_vote saved votes d),
        rw e (vote_of-put_vote other saved votes apart),
        (w, rw e found, a, b),
      )

abbrev count_if : Bool → ℕ
count_if b = if b then 1 else 0

select_same :
    (u : ℕ) (us : List ℕ)
    → distinct us ≡ true
    → length (select (λ k. u == k || u == k) us) ≤ count_if (member u us)
select_same u [] d = omega arith
select_same u (x ∷ xs) d = ground (arith, select_same u xs)

select_two :
    (s t : ℕ) (us : List ℕ)
    → distinct us ≡ true
    → length (select (λ k. t == k || s == k) us) ≤ count_if (member s us) + count_if (member t us)
select_two s t [] d = omega arith
select_two s t (x ∷ xs) d = ground (arith, select_two s t xs)

-- A transfer is stored only between two different users of the meeting.
pub transfer_between_two :
    (participants : List ℕ) (t t' : VoteTransfer)
    → distinct participants ≡ true
    → save_transfer participants t ≡ ok t'
    → (t.source ≢ t.target)
      × (member t.source participants ≡ true)
      × (member t.target participants ≡ true)
unfolding save_transfer
transfer_between_two participants t t' d h =
    let two : length (select (λ u. t.target == u || t.source == u) participants) ≡ 2 =
      ground arith in
    let bound = select_two t.source t.target participants d in
    (
      λ same. ground (
        arith,
        select_same t.source participants d,
        ap (λ (k : ℕ). length (select (λ u. k == u || t.source == u) participants)) same,
      ),
      ground arith,
      ground arith,
    )
