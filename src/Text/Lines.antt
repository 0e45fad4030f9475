-- ===== src/Text/Lines.antt =====
-- Rows of a text, as Python's `str.splitlines` and `str.strip` give them, for
-- voteit/proposal/models.py.
pub mod Cleaned
use voteit.Prelude.{
  ℕ, ◌+◌, Bool, true, false, ◌&&◌, ◌||◌, List, [], ◌∷◌, ◌++◌, ◌==◌, ltb, leb, if◌then◌else◌, member,
}
use voteit.Text.{Text}

abbrev pub line_feed : ℕ
line_feed = 10

abbrev pub carriage_return : ℕ
carriage_return = 13

-- what ends a row
unfoldable pub is_break : ℕ → Bool
is_break c =
    (leb 10 c && leb c 13) || (leb 28 c && leb c 30) || c == 133 || (leb 8232 c && leb c 8233)

-- `c.isspace()`
unfoldable pub is_space : ℕ → Bool
is_space c =
    (leb 9 c && leb c 13)
    || (leb 28 c && leb c 32)
    || member c (133 ∷ 160 ∷ 5760 ∷ 8232 ∷ 8233 ∷ 8239 ∷ 8287 ∷ 12288 ∷ [])
    || (leb 8192 c && leb c 8202)

abbrev pub blank : Text → Bool
blank [] = true
blank (c ∷ s) = false

abbrev starts_line_feed : Text → Bool
starts_line_feed [] = false
starts_line_feed (c ∷ s) = c == line_feed

abbrev pub onto_row : ℕ → List Text → List Text
onto_row c [] = (c ∷ []) ∷ []
onto_row c (p ∷ ps) = (c ∷ p) ∷ ps

-- `s.splitlines()`: a carriage return and a line feed end one row
unfoldable pub splitlines : Text → List Text
splitlines [] = []
splitlines (c ∷ s) =
    let rest = splitlines s in
    if c == carriage_return && starts_line_feed s
    then rest
    else if is_break c
    then [] ∷ rest
    else onto_row c rest

abbrev pub strip_front : Text → Text
strip_front [] = []
strip_front (c ∷ s) = let rest = strip_front s in if is_space c then rest else c ∷ s

abbrev pub strip_back : Text → Text
strip_back [] = []
strip_back (c ∷ s) = let rest = strip_back s in if is_space c && blank rest then [] else c ∷ rest

-- `s.strip()`
unfoldable pub strip : Text → Text
strip s = strip_back (strip_front s)
