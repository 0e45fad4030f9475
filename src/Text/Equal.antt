-- ===== src/Text/Equal.antt =====
-- Equal texts, and texts that end in different numbers.
use voteit.Prelude.{ℕ, ◌≡◌, refl, ap, true, [], ◌∷◌, ◌++◌, arith}
use voteit.Text.{Text, same_text, str, int}
use voteit.Text.RoundTrip.{int-str}

pub same_text_self : (s : Text) → same_text s s ≡ true
same_text_self [] = refl
same_text_self (c ∷ s) = ground (arith, same_text_self s)

pub eq_of_same_text : (s t : Text) → same_text s t ≡ true → s ≡ t
eq_of_same_text [] [] h = refl
eq_of_same_text [] (d ∷ t) h = cc
eq_of_same_text (c ∷ s) [] h = cc
eq_of_same_text (c ∷ s) (d ∷ t) h = ground (arith, eq_of_same_text s t)

pub append_cancel : (s t u : Text) → s ++ t ≡ s ++ u → t ≡ u
append_cancel [] t u h = h
append_cancel (c ∷ s) t u h = ground (arith, append_cancel s t u)

pub str_injective : (m n : ℕ) → str m ≡ str n → m ≡ n
str_injective m n h = cc (int-str m, int-str n, ap int h)
