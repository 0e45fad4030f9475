-- ===== src/Proposal/Documents/Paragraphs/Again.antt =====
-- Paragraphs that are written with a blank row between them are read back.
use voteit.Prelude.{
  ◌≡◌, refl, ap, ◌∙◌, Bool, true, false, not, some, List, [], ◌∷◌, ◌++◌, select, every, map, arith,
}
use mathlib.Core.List.{append_assoc, append-nil}
use voteit.Text.{Text}
use voteit.Text.Lines.{line_feed, blank, splitlines, strip}
use voteit.Text.Lines.Cleaned.{
  unbroken, IsRow, strip-IsRow, splitlines-unbroken, splitlines-append, splitlines_one,
}
use voteit.Proposal.Documents.{get_paragraphs}
use voteit.Proposal.Documents.Paragraphs.{
  leading, groups, after, join_rows, text_groups, get_paragraphs-groups, concat, concat-groups,
}

abbrev AreRows : List Text → Type 0
AreRows [] = Unit
AreRows (r ∷ rs) = IsRow r × AreRows rs

abbrev IsGroup : List Text → Type 0
IsGroup [] = ⊥
IsGroup (r ∷ rs) = IsRow r × AreRows rs

abbrev AreGroups : List (List Text) → Type 0
AreGroups [] = Unit
AreGroups (g ∷ gs) = IsGroup g × AreGroups gs

leading-AreRows :
    (rows : List Text) → every unbroken rows ≡ true → AreRows (leading (map strip rows))
leading-AreRows [] h = tt
leading-AreRows (r ∷ rs) h = ground (arith, strip-IsRow r, leading-AreRows rs)

groups-AreGroups :
    (start : Bool) (rows : List Text)
    → every unbroken rows ≡ true
    → AreGroups (groups start (map strip rows))
groups-AreGroups start [] h = tt
groups-AreGroups true (r ∷ rs) h =
    ground (
      arith,
      strip-IsRow r,
      leading-AreRows rs,
      groups-AreGroups true rs,
      groups-AreGroups false rs,
    )
groups-AreGroups false (r ∷ rs) h =
    ground (arith, groups-AreGroups true rs, groups-AreGroups false rs)

splitlines-join :
    (r : Text) (rs : List Text) (t : Text)
    → AreRows (r ∷ rs)
    → splitlines (join_rows (r ∷ rs) ++ line_feed ∷ t) ≡ (r ∷ rs) ++ splitlines t
splitlines-join r [] t h = ground (arith, append-nil r, splitlines-append r t)
splitlines-join r (q ∷ rs) t h = ground (
  arith,
  append_assoc r (after (q ∷ rs)) (line_feed ∷ t),
  splitlines-append r (join_rows (q ∷ rs) ++ line_feed ∷ t),
  splitlines-join q rs t,
)

splitlines-join_rows :
    (r : Text) (rs : List Text) → AreRows (r ∷ rs) → splitlines (join_rows (r ∷ rs)) ≡ r ∷ rs
splitlines-join_rows r [] h = ground (arith, append-nil r, splitlines_one r)
splitlines-join_rows r (q ∷ rs) h =
    ground (arith, splitlines-append r (join_rows (q ∷ rs)), splitlines-join_rows q rs)

map-strip : (rs : List Text) → AreRows rs → map strip rs ≡ rs
map-strip [] h = refl
map-strip (r ∷ rs) h = ground (arith, map-strip rs)

map-append_strip : (xs ys : List Text) → map strip (xs ++ ys) ≡ map strip xs ++ map strip ys
map-append_strip [] ys = refl
map-append_strip (x ∷ xs) ys = ap (λ zs. strip x ∷ zs) (map-append_strip xs ys)

groups_rest :
    (rs rest : List Text)
    → AreRows rs
    → (leading (rs ++ [] ∷ rest) ≡ rs) × (groups false (rs ++ [] ∷ rest) ≡ groups true rest)
groups_rest [] rest h = (refl, refl)
groups_rest (r ∷ rs) rest h = ground (arith, groups_rest rs rest)

groups_end : (rs : List Text) → AreRows rs → (leading rs ≡ rs) × (groups false rs ≡ [])
groups_end [] h = (refl, refl)
groups_end (r ∷ rs) h = ground (arith, groups_end rs)

-- The paragraphs as one text, with a blank row between two of them.
abbrev pub join_paragraphs : List Text → Text
join_paragraphs [] = []
join_paragraphs (p ∷ []) = p
join_paragraphs (p ∷ q ∷ ps) = p ++ line_feed ∷ line_feed ∷ join_paragraphs (q ∷ ps)

blank_row : (t : Text) → map strip (splitlines (line_feed ∷ t)) ≡ [] ∷ map strip (splitlines t)
unfolding strip
blank_row t = ap (map strip) (splitlines-append [] t refl)

groups-join :
    (gs : List (List Text))
    → AreGroups gs
    → groups true (map strip (splitlines (join_paragraphs (map join_rows gs)))) ≡ gs
groups-join [] h = unfold splitlines in refl
groups-join ([] ∷ gs) h = elim h.0 [ ]
groups-join ((r ∷ rs) ∷ []) h =
    ground (arith, splitlines-join_rows r rs, map-strip rs, groups_end rs)
groups-join ((r ∷ rs) ∷ g ∷ gs) h =
    let later = join_paragraphs (map join_rows (g ∷ gs)) in
    ground (
      arith,
      splitlines-join r rs (line_feed ∷ later),
      map-append_strip (r ∷ rs) (splitlines (line_feed ∷ later)),
      blank_row later,
      map-strip (r ∷ rs),
      groups_rest rs (map strip (splitlines later)),
      groups-join (g ∷ gs),
    )

-- Every text gives paragraphs, without an error: they are the groups of neighbouring rows that are not
-- blank once they are stripped, each joined by line feeds. All rows that are not blank stand in them, in
-- their order, and no others; and the paragraphs, written one after another with a blank row between
-- them, are read back as they are.
pub get_paragraphs-again :
    (text : Text)
    → (get_paragraphs text ≡ some (map join_rows (text_groups text)))
      × (concat (text_groups text) ≡ select (λ r. not (blank r)) (map strip (splitlines text)))
      × (get_paragraphs (join_paragraphs (map join_rows (text_groups text)))
          ≡ some (map join_rows (text_groups text)))
get_paragraphs-again text =
    let gs = text_groups text in
    (
      get_paragraphs-groups text,
      concat-groups (map strip (splitlines text)),
      get_paragraphs-groups (join_paragraphs (map join_rows gs))
          ∙ ap (λ hs. some (map join_rows hs))
              (groups-join gs (groups-AreGroups true (splitlines text) (splitlines-unbroken text))),
    )
