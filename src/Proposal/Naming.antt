-- ===== src/Proposal/Naming.antt =====
-- The ids and tags of proposals: `Proposal.save` and `DiffProposal.save` of
-- voteit/proposal/models.py, and voteit/proposal/app/proposal_id/userid.py.
pub mod Fresh
pub mod Tagged
use voteit.Prelude.{
  ℕ, ◌+◌, Bool, true, false, not, ◌&&◌, Option, none, some, List, [], ◌∷◌, ◌++◌, ◌==◌,
  if◌then◌else◌, is_some, take,
}
use voteit.Text.{Text, str, int, text_in}
use voteit.Text.Lines.{blank}
use voteit.Agenda.{max_order}

-- `userid` is empty for a user without one.
pub record Author : Type 0 where
  pub userid : Text
  pub full_name : Text

-- `meeting_group` is the `groupid` of the group.
pub record Draft : Type 0 where
  pub prop_id : Text
  pub tags : List Text
  pub author : Option Author
  pub meeting_group : Option Text
  pub as_group : Bool
  pub in_meeting : Bool

abbrev est_max_len : ℕ
est_max_len = 45

-- `str(None)`, which `slugify` makes of a base that is missing
abbrev pub none_text : Text
none_text = 78 ∷ 111 ∷ 110 ∷ 101 ∷ []

abbrev author_name : Author → Text
author_name a = if blank a.userid then a.full_name else a.userid

abbrev pub author_base : Option Author → Text
author_base none = none_text
author_base (some a) = author_name a

abbrev pub suggestion_base : Option Author → Option Text → Bool → Text
suggestion_base author (some groupid) true = groupid
suggestion_base author _ _ = author_base author

abbrev pub dash : ℕ
dash = 45

-- What is left of a text after a prefix.
abbrev pub after_prefix : Text → Text → Option Text
after_prefix [] s = some s
after_prefix (c ∷ p) [] = none
after_prefix (c ∷ p) (d ∷ s) = let rest = after_prefix p s in if c == d then rest else none

-- the number of an id that the pattern `^{base}-(\d+)$` fits
unfoldable pub id_number : Text → Text → Option ℕ
id_number base pid = elim (after_prefix (base ++ dash ∷ []) pid) [
  | none ↦ none
  | some rest ↦ int rest
]

abbrev pub id_numbers : Text → List Text → List ℕ
id_numbers base [] = []
id_numbers base (pid ∷ pids) = elim (id_number base pid) [
  | none ↦ id_numbers base pids
  | some n ↦ n ∷ id_numbers base pids
]

abbrev or_zero : Option ℕ → ℕ
or_zero none = 0
or_zero (some n) = n

unfoldable pub next_id : Text → List Text → Text
next_id base pids = base ++ dash ∷ str (or_zero (max_order (id_numbers base pids)) + 1)

-- Django's `slugify` is a parameter, and so are the ids of the meeting's proposals.
module _ (slugify : Text → Text) where
  unfoldable pub suggestion : Option Author → Option Text → Bool → Option Text
  suggestion author meeting_group as_group =
      let base = slugify (suggestion_base author meeting_group as_group) in
      if blank base then none else some (take est_max_len base)

  -- `UseridPID.__call__`
  unfoldable pub userid_pid : List Text → Draft → Option Text
  unfolding suggestion
  userid_pid pids p =
      if not p.in_meeting then none else elim (suggestion p.author p.meeting_group p.as_group) [
        | none ↦ none
        | some base ↦ some (next_id base pids)
      ]

-- `if suggestion`, else the eight letters that `_new_proposal_id` draws
abbrev suggested : Text → Option Text → Text
suggested drawn none = drawn
suggested drawn (some s) = if blank s then drawn else s

abbrev pub with_tag : Text → List Text → List Text
with_tag t tags = if text_in t tags then tags else tags ++ t ∷ []

-- The meeting's policy, and what is drawn, are parameters.
module _ (pid_policy : Draft → Option Text) (drawn : Text) where
  abbrev pub chosen_id : Draft → Text
  chosen_id p =
      if blank p.prop_id && p.in_meeting then suggested drawn (pid_policy p) else p.prop_id

  unfoldable pub save_proposal : Draft → Draft
  save_proposal p = record p {
    prop_id = chosen_id p;
    tags = with_tag (chosen_id p) p.tags;
    as_group = p.as_group && is_some p.meeting_group;
  }

  -- `DiffProposal.save`, by the tag of its paragraph
  unfoldable pub save_diff : Text → Draft → Draft
  unfolding save_proposal
  save_diff tag p = save_proposal (record p { tags = with_tag tag p.tags })
