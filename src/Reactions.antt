-- ===== src/Reactions.antt =====
-- Reaction buttons: `ReactionButton.save` of voteit/reactions/models.py.
use voteit.Prelude.{
  ℕ, ◌≡◌, ◌⊎◌, Bool, true, false, not, List, ◌++◌, ◌==◌, if◌then◌else◌, every, arith,
}
use voteit.Text.{Text}

-- What a save reads and changes. Roles and models are named by texts.
pub record ReactionButton : Type 0 where
  pub order : ℕ
  pub change_roles : List Text
  pub list_roles : List Text
  pub allowed_models : List Text

pub data Saved : Type 0 where
  saved : ReactionButton → Saved
  invalid_role archived_meeting invalid_model : Saved

-- The roles of meetings and the registry of models are parameters; `count` is the number of buttons of
-- the meeting in the database.
module _ (is_role is_model : Text → Bool) where
  unfoldable pub save_button : Bool → ℕ → ReactionButton → Saved
  save_button is_archived count b =
      if not (every is_role (b.change_roles ++ b.list_roles))
      then invalid_role
      else if is_archived
      then archived_meeting
      else if not (every is_model b.allowed_models)
      then invalid_model
      else saved (record b { order = (if b.order == 0 then count else b.order) })

  -- A button is only saved in a meeting that is not archived, with roles and models that exist. An order
  -- that is not 0 stays; a button with the order 0 is put behind the others, at each save: so is the
  -- first button of a meeting, whose order is 0, when it is saved again.
  pub save_button_lem :
      (is_archived : Bool) (count : ℕ) (b b' : ReactionButton)
      → save_button is_archived count b ≡ saved b'
      → (is_archived ≡ false)
        × (every is_role (b'.change_roles ++ b'.list_roles) ≡ true)
        × (every is_model b'.allowed_models ≡ true)
        × (((b.order ≡ 0) × (b'.order ≡ count)) ⊎ (b' ≡ b))
  unfolding save_button
  save_button_lem is_archived count b b' h = ground arith
