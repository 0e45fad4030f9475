-- ===== src/Proposal/Documents/Kept.antt =====
-- What a document keeps of its text.
use voteit.Prelude.{
  ◌≡◌, refl, ap, ◌⊎◌, inl, inr, true, false, not, ◌||◌, some, List, ◌∷◌, if◌then◌else◌, map, arith,
  Bool-cases,
}
use voteit.Text.{Text, same_text, str}
use voteit.Text.Equal.{eq_of_same_text, append_cancel, str_injective}
use voteit.Proposal.Documents.{
  TextDocument, TextParagraph, numbered, create_text_paragraphs, changed, save, tag,
}
use voteit.Proposal.Documents.Paragraphs.{join_rows, text_groups, get_paragraphs-groups}

abbrev pub paragraphs_of : Text → List TextParagraph
paragraphs_of body = numbered 1 (map join_rows (text_groups body))

module _ (strip_html : Text → Text) where
  abbrev pub stored : TextDocument → TextDocument
  stored d = record d {
    saved = true;
    body = strip_html d.body;
    original_body = some (strip_html d.body);
    should_refresh = false;
    text_paragraphs =
        (if not d.saved || changed d.original_body d.body || d.should_refresh
          then paragraphs_of (strip_html d.body)
          else d.text_paragraphs);
  }

  -- Saving a document always succeeds. It stores the body that `strip_html` gives, and remembers that
  -- body. A new document, one whose body is not the one that was loaded, and one that waits for it gets
  -- the paragraphs of the new body, numbered from 1; any other keeps those it has.
  pub save_lem : (d : TextDocument) → save strip_html d ≡ some (stored d)
  unfolding save create_text_paragraphs
  save_lem d = ground (arith, get_paragraphs-groups (strip_html d.body))

  -- A document that the database holds: its paragraphs are those of its body, which `strip_html` leaves
  -- as it is.
  pub record IsCurrent (d : TextDocument) : Type 0 where
    pub saved : d.saved ≡ true
    pub remembered : d.original_body ≡ some d.body
    pub clean : strip_html d.body ≡ d.body
    pub parsed : d.text_paragraphs ≡ paragraphs_of d.body

  parsed :
      (d : TextDocument) (body : Text)
      → ((d.saved ≡ false) ⊎ IsCurrent d)
      → (stored (record d { body = body })).text_paragraphs ≡ paragraphs_of (strip_html body)
  parsed d body (inl new) = ground arith
  parsed d body (inr current) = elim (Bool-cases (same_text d.body body)) [
    | inl same ↦
        let e = eq_of_same_text d.body body same in
        rw (current.remembered, same)
          (ground (arith, ap strip_html e, ap paragraphs_of (current.clean)))
    | inr other ↦ rw (current.remembered, other) (ground arith)
  ]

  -- A document that is new, or that the database holds and whose body was then changed in any way, has
  -- the paragraphs of its body after it is saved, if `strip_html` leaves alone what it made.
  pub save-IsCurrent :
      (d : TextDocument) (body : Text)
      → ((d.saved ≡ false) ⊎ IsCurrent d)
      → strip_html (strip_html body) ≡ strip_html body
      → (d' : TextDocument) × (save strip_html (record d { body = body }) ≡ some d')
        × IsCurrent d'
        × (d'.body ≡ strip_html body)
  save-IsCurrent d body before clean = (
    stored (record d { body = body }),
    save_lem (record d { body = body }),
    record { saved = refl; remembered = refl; clean = clean; parsed = parsed d body before },
    refl,
  )

-- The tags of a document's paragraphs are distinct: those of two numbers are.
pub tag_injective :
    (d : TextDocument) (p q : TextParagraph) → tag d p ≡ tag d q → p.paragraph_id ≡ q.paragraph_id
unfolding tag
tag_injective d p q h =
    str_injective _ _
      (ground (arith, append_cancel d.base_tag (45 ∷ str p.paragraph_id) (45 ∷ str q.paragraph_id)))
