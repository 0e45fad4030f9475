-- ===== src/Text/Lines/Cleaned.antt =====
-- Rows without breaks, and rows that have been stripped.
use voteit.Prelude.{
  ℕ, ◌≡◌, refl, ap, ◌∙◌, Bool, true, false, not, List, [], ◌∷◌, ◌++◌, ◌==◌, every, arith,
}
use voteit.Text.{Text}
use voteit.Text.Lines.{
  line_feed, carriage_return, is_break, is_space, blank, onto_row, splitlines, strip_front,
  strip_back, strip,
}

abbrev pub unbroken : Text → Bool
unbroken = every (λ c. not (is_break c))

onto_row-unbroken :
    (c : ℕ) (rows : List Text)
    → is_break c ≡ false
    → every unbroken rows ≡ true
    → every unbroken (onto_row c rows) ≡ true
onto_row-unbroken c [] h k = ground arith
onto_row-unbroken c (r ∷ rows) h k = ground arith

pub splitlines-unbroken : (s : Text) → every unbroken (splitlines s) ≡ true
unfolding splitlines
splitlines-unbroken [] = refl
splitlines-unbroken (c ∷ s) =
    ground (arith, splitlines-unbroken s, onto_row-unbroken c (splitlines s))

front-unbroken : (s : Text) → unbroken s ≡ true → unbroken (strip_front s) ≡ true
front-unbroken [] h = refl
front-unbroken (c ∷ s) h = ground (arith, front-unbroken s)

back-unbroken : (s : Text) → unbroken s ≡ true → unbroken (strip_back s) ≡ true
back-unbroken [] h = refl
back-unbroken (c ∷ s) h = ground (arith, back-unbroken s)

abbrev front_kept : Text → Bool
front_kept [] = true
front_kept (c ∷ s) = not (is_space c)

front-kept : (s : Text) → front_kept (strip_front s) ≡ true
front-kept [] = refl
front-kept (c ∷ s) = ground (arith, front-kept s)

front-front_back : (s : Text) → front_kept s ≡ true → strip_front (strip_back s) ≡ strip_back s
front-front_back [] h = refl
front-front_back (c ∷ s) h = ground arith

back-back : (s : Text) → strip_back (strip_back s) ≡ strip_back s
back-back [] = refl
back-back (c ∷ s) = ground (arith, back-back s)

-- Stripping again changes nothing.
strip-strip : (s : Text) → strip (strip s) ≡ strip s
unfolding strip
strip-strip s =
    ap strip_back (front-front_back (strip_front s) (front-kept s)) ∙ back-back (strip_front s)

-- A row as it stands in a paragraph.
pub record IsRow (r : Text) : Type 0 where
  pub whole : unbroken r ≡ true
  pub stripped : strip r ≡ r
  pub filled : blank r ≡ false

pub strip-IsRow : (s : Text) → unbroken s ≡ true → blank (strip s) ≡ false → IsRow (strip s)
strip-IsRow s h k = record {
  whole = unfold strip in back-unbroken (strip_front s) (front-unbroken s h);
  stripped = strip-strip s;
  filled = k;
}

line_feed-breaks : is_break line_feed ≡ true
unfolding is_break
line_feed-breaks = refl

return-breaks : (c : ℕ) → is_break c ≡ false → (c == carriage_return) ≡ false
unfolding is_break
return-breaks c h = ground arith

pub splitlines-append :
    (r t : Text) → unbroken r ≡ true → splitlines (r ++ line_feed ∷ t) ≡ r ∷ splitlines t
unfolding splitlines
splitlines-append [] t h = ground (arith, line_feed-breaks)
splitlines-append (c ∷ r) t h = ground (arith, return-breaks c, splitlines-append r t)

pub splitlines_one : (r : Text) → unbroken r ≡ true → blank r ≡ false → splitlines r ≡ r ∷ []
unfolding splitlines
splitlines_one [] h k = cc
splitlines_one (c ∷ []) h k = ground (arith, return-breaks c)
splitlines_one (c ∷ d ∷ r) h k = ground (arith, return-breaks c, splitlines_one (d ∷ r))
