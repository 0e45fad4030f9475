-- ===== src/Scenarios/Proposals.antt =====
-- Runs of text documents, of the ids of proposals and of reaction buttons.
use voteit.Prelude.{◌≡◌, inl, refl, true, false, not, none, some, List, [], ◌∷◌, select, map}
use voteit.Text.{Text, str, int, text_in}
use voteit.Text.Lines.{is_break, is_space, splitlines, strip, blank}
use voteit.Reactions.{ReactionButton, saved, save_button}
use voteit.Proposal.Documents.{TextDocument, get_paragraphs, tag, save}
use voteit.Proposal.Documents.Paragraphs.{join_rows, text_groups, concat}
use voteit.Proposal.Documents.Paragraphs.Again.{join_paragraphs, get_paragraphs-again}
use voteit.Proposal.Documents.Kept.{IsCurrent, save-IsCurrent}
use voteit.Proposal.Naming.{Draft, save_proposal, userid_pid, next_id, id_number}
use voteit.Proposal.Naming.Tagged.{save_fresh}

-- "a", a carriage return and a line feed, " b ", three line feeds, "c"
abbrev written : Text
written = 97 ∷ 13 ∷ 10 ∷ 32 ∷ 98 ∷ 32 ∷ 10 ∷ 10 ∷ 10 ∷ 99 ∷ []

splitlines_run : splitlines written ≡ (97 ∷ []) ∷ (32 ∷ 98 ∷ 32 ∷ []) ∷ [] ∷ [] ∷ (99 ∷ []) ∷ []
unfolding splitlines is_break
splitlines_run = refl

get_paragraphs_run : get_paragraphs written ≡ some ((97 ∷ 10 ∷ 98 ∷ []) ∷ (99 ∷ []) ∷ [])
unfolding get_paragraphs splitlines strip is_break is_space
get_paragraphs_run = refl

get_paragraphs-again_example :
    (get_paragraphs written ≡ some (map join_rows (text_groups written)))
    × (concat (text_groups written) ≡ select (λ r. not (blank r)) (map strip (splitlines written)))
    × (get_paragraphs (join_paragraphs (map join_rows (text_groups written)))
        ≡ some (map join_rows (text_groups written)))
get_paragraphs-again_example = get_paragraphs-again written

abbrev document : TextDocument
document = record {
  saved = false;
  body = [];
  base_tag = 100 ∷ [];
  original_body = none;
  should_refresh = false;
  text_paragraphs = [];
}

save-IsCurrent_example :
    (d : TextDocument) × (save (λ t. t) (record document { body = written }) ≡ some d)
    × IsCurrent (λ t. t) d
    × (d.body ≡ written)
save-IsCurrent_example = save-IsCurrent (λ t. t) document written (inl refl) refl

-- the text of the second paragraph is tagged "d-2"
tag_run : tag document (record { body = 99 ∷ []; paragraph_id = 2 }) ≡ 100 ∷ 45 ∷ 50 ∷ []
unfolding tag str
tag_run = refl

-- a proposal of the author "ann"
abbrev draft : Draft
draft = record {
  prop_id = [];
  tags = (120 ∷ []) ∷ [];
  author = some (record { userid = 97 ∷ 110 ∷ 110 ∷ []; full_name = [] });
  meeting_group = none;
  as_group = true;
  in_meeting = true;
}

-- "ann-1", "ann-12" and "anna-40"
abbrev prop_ids : List Text
prop_ids =
    (97 ∷ 110 ∷ 110 ∷ 45 ∷ 49 ∷ [])
    ∷ (97 ∷ 110 ∷ 110 ∷ 45 ∷ 49 ∷ 50 ∷ [])
    ∷ (97 ∷ 110 ∷ 110 ∷ 97 ∷ 45 ∷ 52 ∷ 48 ∷ [])
    ∷ []

abbrev kept : Draft
kept = save_proposal (userid_pid (λ s. s) prop_ids) (113 ∷ []) draft

-- "ann-13"
save_proposal_run : kept ≡ record draft {
  prop_id = 97 ∷ 110 ∷ 110 ∷ 45 ∷ 49 ∷ 51 ∷ [];
  tags = (120 ∷ []) ∷ (97 ∷ 110 ∷ 110 ∷ 45 ∷ 49 ∷ 51 ∷ []) ∷ [];
  as_group = false;
}
unfolding save_proposal userid_pid next_id id_number str int
save_proposal_run = refl

save_fresh_example : text_in kept.prop_id prop_ids ≡ false
save_fresh_example = (save_fresh (λ s. s) prop_ids (113 ∷ []) draft refl refl refl).0

-- the only button of a meeting, and what a second save makes of it once there are two more
abbrev first_button : ReactionButton
first_button = record { order = 0; change_roles = []; list_roles = []; allowed_models = [] }

first_button_run : save_button (λ r. true) (λ m. true) false 0 first_button ≡ saved first_button
unfolding save_button
first_button_run = refl

moved_button_run :
    save_button (λ r. true) (λ m. true) false 3 first_button
    ≡ saved (record first_button { order = 3 })
unfolding save_button
moved_button_run = refl
