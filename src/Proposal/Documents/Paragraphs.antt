-- ===== src/Proposal/Documents/Paragraphs.antt =====
-- The paragraphs that a text gives.
pub mod Again
use voteit.Prelude.{
  ℕ, zero, suc, ◌+◌, ◌≡◌, refl, sym, ap, ◌∙◌, Bool, true, false, not, ◌&&◌, Option, none, some,
  List, [], ◌∷◌, ◌++◌, select, every, map, arith,
}
use mathlib.Core.List.{append_assoc, append-nil}
use voteit.Text.{Text}
use voteit.Text.Lines.{line_feed, blank, splitlines, strip}
use voteit.Text.Lines.Cleaned.{
  unbroken, IsRow, strip-IsRow, splitlines-unbroken, splitlines-append, splitlines_one,
}
use voteit.Proposal.Documents.{extend_last, add_rows, get_paragraphs}

-- A reference: the rows up to the first blank one, and the groups of rows between blank ones. The
-- flag says whether a group starts at the first row.
abbrev pub leading : List Text → List Text
leading [] = []
leading (r ∷ rs) = elim (blank r) [ true ↦ [] | false ↦ r ∷ leading rs ]

abbrev pub groups : Bool → List Text → List (List Text)
groups start [] = []
groups start (r ∷ rs) = elim (blank r) [
  | true ↦ groups true rs
  | false ↦ elim start [ true ↦ (r ∷ leading rs) ∷ groups false rs | false ↦ groups false rs ]
]

-- `"\n".join(rows)`
abbrev pub after : List Text → Text
after [] = []
after (r ∷ rs) = line_feed ∷ r ++ after rs

abbrev pub join_rows : List Text → Text
join_rows [] = []
join_rows (r ∷ rs) = r ++ after rs

extend_last-append :
    (output : List Text) (p row : Text)
    → extend_last (output ++ p ∷ []) row ≡ some (output ++ (p ++ line_feed ∷ row) ∷ [])
extend_last-append [] p row = refl
extend_last-append (o ∷ []) p row = refl
extend_last-append (o ∷ q ∷ output) p row = ground (arith, extend_last-append (q ∷ output) p row)

mutual
  add_rows_new :
      (output rows : List Text)
      → add_rows output true rows ≡ some (output ++ map join_rows (groups true rows))
  add_rows_new output [] = ap some (sym (append-nil output))
  add_rows_new output (r ∷ rs) = ground (arith, add_rows_new output rs, add_rows_more output r rs)

  add_rows_more :
      (output : List Text) (p : Text) (rows : List Text)
      → add_rows (output ++ p ∷ []) false rows
        ≡ some (output ++ (p ++ after (leading rows)) ∷ map join_rows (groups false rows))
  add_rows_more output p [] = ap (λ q. some (output ++ q ∷ [])) (sym (append-nil p))
  add_rows_more output p (r ∷ rs) = ground (
    arith,
    extend_last-append output p r,
    append-nil p,
    append_assoc output (p ∷ []) (map join_rows (groups true rs)),
    append_assoc p (line_feed ∷ r) (after (leading rs)),
    add_rows_new (output ++ p ∷ []) rs,
    add_rows_more output (p ++ line_feed ∷ r) rs,
  )

-- The paragraphs of a text, as the rows that they have.
abbrev pub text_groups : Text → List (List Text)
text_groups text = groups true (map strip (splitlines text))

-- The call never raises.
pub get_paragraphs-groups :
    (text : Text) → get_paragraphs text ≡ some (map join_rows (text_groups text))
unfolding get_paragraphs
get_paragraphs-groups text = add_rows_new [] (map strip (splitlines text))

abbrev pub concat : List (List Text) → List Text
concat [] = []
concat (g ∷ gs) = g ++ concat gs

mutual
  filled_rows :
      (rows : List Text)
      → leading rows ++ concat (groups false rows) ≡ select (λ r. not (blank r)) rows
  filled_rows [] = refl
  filled_rows (r ∷ rs) = ground (arith, filled_rows rs, all_filled_rows rs)

  all_filled_rows :
      (rows : List Text) → concat (groups true rows) ≡ select (λ r. not (blank r)) rows
  all_filled_rows [] = refl
  all_filled_rows (r ∷ rs) = ground (arith, all_filled_rows rs, filled_rows rs)

-- No row that is not blank is lost or moved.
pub concat-groups :
    (rows : List Text) → concat (groups true rows) ≡ select (λ r. not (blank r)) rows
concat-groups rows = all_filled_rows rows
