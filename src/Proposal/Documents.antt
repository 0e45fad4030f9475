-- ===== src/Proposal/Documents.antt =====
-- Text documents and their paragraphs: `TextDocument`, `get_paragraphs` and `TextParagraph` of
-- voteit/proposal/models.py, and `text_document_updated` of voteit/proposal/signals.py.
pub mod Kept
pub mod Paragraphs
use voteit.Prelude.{
  ℕ, zero, suc, ◌+◌, Bool, true, false, not, ◌&&◌, Option, none, some, List, [], ◌∷◌, ◌++◌, ◌==◌,
  if◌then◌else◌, map,
}
use voteit.Text.{Text, str, same_text}
use voteit.Text.Lines.{line_feed, blank, splitlines, strip}
use voteit.Agenda.{max_order}

-- `output[-1] += "\n"` and `output[-1] += row`, which raises where there is no last one
abbrev pub extend_last : List Text → Text → Option (List Text)
extend_last [] row = none
extend_last (p ∷ []) row = some ((p ++ line_feed ∷ row) ∷ [])
extend_last (p ∷ q ∷ ps) row = elim (extend_last (q ∷ ps) row) [
  | none ↦ none
  | some qs ↦ some (p ∷ qs)
]

-- the loop over the rows, with `output` and `new_para`
abbrev pub add_rows : List Text → Bool → List Text → Option (List Text)
add_rows output new_para [] = some output
add_rows output new_para (row ∷ rows) = elim (blank row) [
  | true ↦ add_rows output true rows
  | false ↦ elim new_para [
    | true ↦ add_rows (output ++ row ∷ []) false rows
    | false ↦ elim (extend_last output row) [
      | none ↦ none
      | some longer ↦ add_rows longer false rows
    ]
  ]
]

unfoldable pub get_paragraphs : Text → Option (List Text)
get_paragraphs text = add_rows [] true (map strip (splitlines text))

pub record TextParagraph : Type 0 where
  pub body : Text
  pub paragraph_id : ℕ

-- `enumerate(paragraphs, start=i)`
abbrev pub numbered : ℕ → List Text → List TextParagraph
numbered i [] = []
numbered i (p ∷ ps) = record { body = p; paragraph_id = i } ∷ numbered (suc i) ps

-- `original_body` is none for a document that was not loaded from the database.
pub record TextDocument : Type 0 where
  pub saved : Bool
  pub body : Text
  pub base_tag : Text
  pub original_body : Option Text
  pub should_refresh : Bool
  pub text_paragraphs : List TextParagraph

-- `TextParagraph.tag`
unfoldable pub tag : TextDocument → TextParagraph → Text
tag d p = d.base_tag ++ 45 ∷ str p.paragraph_id

unfoldable pub create_text_paragraphs : TextDocument → Option TextDocument
create_text_paragraphs d = elim (get_paragraphs d.body) [
  | none ↦ none
  | some paragraphs ↦ some record d {
    text_paragraphs = d.text_paragraphs ++ numbered 1 paragraphs;
    should_refresh = false;
  }
]

-- The signal that a save sends: `text_paragraphs.all().delete()` comes first.
unfoldable pub text_document_updated : TextDocument → Option TextDocument
unfolding create_text_paragraphs
text_document_updated d = elim d.should_refresh [
  | true ↦ create_text_paragraphs (record d { text_paragraphs = [] })
  | false ↦ some d
]

abbrev pub changed : Option Text → Text → Bool
changed none body = true
changed (some original) body = not (same_text original body)

-- `TextDocument.save`. The field cleans the body when it is stored, by `strip_html`; what the signal
-- raises undoes the whole transaction; and the body that was saved is remembered.
module _ (strip_html : Text → Text) where
  unfoldable pub save : TextDocument → Option TextDocument
  unfolding text_document_updated
  save d =
      let refresh =
        if not d.saved
        then true
        else if changed d.original_body d.body
        then true
        else d.should_refresh in
      let stored = record d { saved = true; body = strip_html d.body; should_refresh = refresh } in
      elim (text_document_updated stored) [
        | none ↦ none
        | some d' ↦ some record d' { original_body = some d'.body }
      ]

-- `TextParagraph.save`, by whether it has a primary key, the number that it has and the numbers of
-- its agenda item
unfoldable pub paragraph_number : Bool → ℕ → List ℕ → ℕ
paragraph_number saved paragraph_id ids =
    if not saved && paragraph_id == 0
    then elim (max_order ids) [ none ↦ paragraph_id | some max_val ↦ max_val + 1 ]
    else paragraph_id
