-- ===== src/Poll/Policy/Groups.antt =====
-- Votes from groups: `calc_group_votes_equal` of voteit/poll/app/er_policies/utils.py and
-- `GroupVotesBeforePoll.get_voters` of group_votes_before_poll.py.
pub mod Delegated
pub mod Shares
pub mod Limit
use voteit.Prelude.{
  ℕ, zero, suc, ◌+◌, ◌/◌, ◌%◌, Bool, true, false, ◌&&◌, ◌||◌, not, Option, none, some, List, [],
  ◌∷◌, ◌==◌, ◌≡◌, distinct, if◌then◌else◌, nat_eq, member, select, length, ltb, Counter, increment,
  values_sum, total,
}

-- `voters` are the members who are potential voters, and active where that is asked for, by
-- ascending primary key.
pub record Group : Type 0 where
  pub pk : ℕ
  pub votes : ℕ
  pub delegate_to : Option ℕ
  pub voters : List ℕ

abbrev pub is_delegate : ℕ → Group → Bool
is_delegate pk g = elim g.delegate_to [ none ↦ false | some to ↦ to == pk ]

-- `Sum("delegations_from__votes")`
abbrev pub delegated_sum : List Group → Group → ℕ
delegated_sum gs g = total (λ x. x.votes) (select (is_delegate g.pk) gs)

abbrev keeps_votes : Group → Bool
keeps_votes g = elim g.delegate_to [ none ↦ true | some _ ↦ false ]

-- the filters on the groups, and `votes_sum`
abbrev pub relevant : List Group → Group → Bool
relevant gs g = keeps_votes g && (ltb 0 g.votes || ltb 0 (delegated_sum gs g))

abbrev pub votes_sum : List Group → Group → ℕ
votes_sum gs g = g.votes + delegated_sum gs g

-- `for pk in user_pks: counter[pk] += full`
abbrev pub give : ℕ → List ℕ → Counter ℕ → Counter ℕ
give full [] counter = counter
give full (pk ∷ pks) counter = give full pks (increment pk full counter)

-- the loop that hands out the rest, one vote each
abbrev pub give_rest : ℕ → List ℕ → Counter ℕ → Counter ℕ
give_rest zero pks counter = counter
give_rest (suc rest) [] counter = counter
give_rest (suc rest) (pk ∷ pks) counter = give_rest rest pks (increment pk 1 counter)

-- `rnd.shuffle`: Python's generator, with its state. It reorders the list.
pub record Random (S : Type 0) : Type 0 where
  pub shuffle : S → List ℕ → S × List ℕ
  pub shuffle_length : (s : S) (xs : List ℕ) → length (shuffle s xs).1 ≡ length xs
  pub shuffle_member : (s : S) (xs : List ℕ) (k : ℕ) → member k (shuffle s xs).1 ≡ member k xs
  pub shuffle_distinct :
      (s : S) (xs : List ℕ) → distinct xs ≡ true → distinct (shuffle s xs).1 ≡ true

module _ {S : Type 0} (rnd : Random S) where
  abbrev pub shared_out : ℕ → ℕ → List ℕ → S → Counter ℕ → S × Counter ℕ
  shared_out full zero pks s counter = (s, give full pks counter)
  shared_out full (suc rest) pks s counter =
      let (s', order) = rnd.shuffle s pks in
      (s', give_rest (suc rest) order (give full pks counter))

  -- one group: nothing happens without voters, and the votes are divided with rest otherwise
  abbrev pub share_group : ℕ → List ℕ → S → Counter ℕ → S × Counter ℕ
  share_group votes [] s counter = (s, counter)
  share_group votes (pk ∷ pks) s counter =
      shared_out (votes / length (pk ∷ pks)) (votes % length (pk ∷ pks)) (pk ∷ pks) s counter

  abbrev pub share_all : List Group → List Group → S → Counter ℕ → S × Counter ℕ
  share_all gs [] s counter = (s, counter)
  share_all gs (g ∷ rest) s counter =
      let (s', counter') = share_group (votes_sum gs g) g.voters s counter in
      share_all gs rest s' counter'

  unfoldable pub calc_group_votes_equal : List Group → S → Counter ℕ
  calc_group_votes_equal gs s = (share_all gs (select (relevant gs) gs) s []).1

-- A membership with the votes that it was given; `potential` says whether the user may vote.
pub record GroupMembership : Type 0 where
  pub user : ℕ
  pub votes : ℕ
  pub group_votes : ℕ
  pub potential : Bool

abbrev pub counts : GroupMembership → Bool
counts m = m.potential && ltb 0 m.votes && ltb 0 m.group_votes

abbrev pub tally : List GroupMembership → Counter ℕ → Counter ℕ
tally [] counter = counter
tally (m ∷ ms) counter = tally ms (increment m.user m.votes counter)

abbrev pub voters_of : List GroupMembership → Counter ℕ
voters_of ms = tally (select counts ms) []

-- `GroupVotesBeforePoll.get_voters`, over the votes of the meeting's groups; none is the exception
unfoldable pub group_voters : List ℕ → List GroupMembership → Option (Counter ℕ)
group_voters group_votes ms =
    if ltb (total (λ n. n) (select (ltb 0) group_votes)) (values_sum (voters_of ms))
    then none
    else some (voters_of ms)
