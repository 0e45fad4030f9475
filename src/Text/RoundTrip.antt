-- ===== src/Text/RoundTrip.antt =====
-- Numbers that were written are read back.
use voteit.Prelude.{
  ℕ, zero, suc, ◌+◌, ◌/◌, ◌%◌, ◌<◌, ◌≡◌, ◌≢◌, refl, sym, ◌∙◌, ap, Bool, true, not, some, List, [],
  ◌∷◌, ◌++◌, ◌==◌, every, map, arith,
}
use mathlib.Core.List.{append_assoc, append-nil}
use voteit.Text.{
  Text, comma, digits, str, read_digits, int, split, join, ints, parse_numbers, write_numbers,
}

read_digits-digits :
    (rounds n : ℕ) (t : Text) → n < rounds → read_digits 0 (digits rounds n ++ t) ≡ read_digits n t
read_digits-digits zero n t h = absurd (omega arith)
read_digits-digits (suc rounds) n t h = ground (
  arith,
  read_digits-digits rounds (n / 10) ((48 + n % 10) ∷ t),
  append_assoc (digits rounds (n / 10)) ((48 + n % 10) ∷ []) t,
)

append-ne-nil : (s : Text) (c : ℕ) (t : Text) → s ++ c ∷ t ≢ []
append-ne-nil [] c t = cc
append-ne-nil (d ∷ s) c t = cc

pub digits-ne-nil : (rounds n : ℕ) → digits (suc rounds) n ≢ []
digits-ne-nil rounds n = ground (arith, append-ne-nil (digits rounds (n / 10)) (48 + n % 10) [])

int-read_digits : (s : Text) → s ≢ [] → int s ≡ read_digits 0 s
unfolding int
int-read_digits [] h = absurd (h refl)
int-read_digits (c ∷ s) h = refl

pub int-str : (n : ℕ) → int (str n) ≡ some n
unfolding str
int-str n =
    int-read_digits (digits (suc n) n) (digits-ne-nil n n)
    ∙ ap (λ s. read_digits 0 s) (sym (append-nil (digits (suc n) n)))
    ∙ read_digits-digits (suc n) n [] (omega arith)

abbrev pub plain : Text → Bool
plain = every (λ c. not (c == comma))

plain-append : (s t : Text) → plain s ≡ true → plain t ≡ true → plain (s ++ t) ≡ true
plain-append [] t hs ht = ht
plain-append (c ∷ s) t hs ht = ground (arith, plain-append s t)

plain-digits : (rounds n : ℕ) → plain (digits rounds n) ≡ true
plain-digits zero n = refl
plain-digits (suc rounds) n = ground (
  arith,
  plain-digits rounds (n / 10),
  plain-append (digits rounds (n / 10)) ((48 + n % 10) ∷ []),
)

split-plain : (p : Text) → plain p ≡ true → split p ≡ p ∷ []
split-plain [] h = refl
split-plain (c ∷ p) h = ground (arith, split-plain p)

split-append_comma : (p rest : Text) → plain p ≡ true → split (p ++ comma ∷ rest) ≡ p ∷ split rest
split-append_comma [] rest h = refl
split-append_comma (c ∷ p) rest h = ground (arith, split-append_comma p rest)

-- no part holds a comma
pub split-join :
    (p : Text) (ps : List Text) → every plain (p ∷ ps) ≡ true → split (join (p ∷ ps)) ≡ p ∷ ps
split-join p [] h = ground (arith, split-plain p)
split-join p (q ∷ ps) h = ground (arith, split-append_comma p (join (q ∷ ps)), split-join q ps)

pub every-plain : (ns : List ℕ) → every plain (map str ns) ≡ true
unfolding str
every-plain [] = refl
every-plain (n ∷ ns) = ground (arith, plain-digits (suc n) n, every-plain ns)

ints-str : (ns : List ℕ) → ints (map str ns) ≡ some ns
ints-str [] = refl
ints-str (n ∷ ns) = ground (arith, int-str n, ints-str ns)

join-ne-nil : (n : ℕ) (ns : List ℕ) → join (map str (n ∷ ns)) ≢ []
unfolding str
join-ne-nil n [] = digits-ne-nil n n
join-ne-nil n (m ∷ ns) = append-ne-nil (str n) comma _

parse-split : (s : Text) → s ≢ [] → parse_numbers s ≡ ints (split s)
unfolding parse_numbers
parse-split [] h = absurd (h refl)
parse-split (c ∷ s) h = refl

-- Every list of numbers that was written is read back, the empty one included.
pub parse-write_numbers : (ns : List ℕ) → parse_numbers (write_numbers ns) ≡ some ns
unfolding write_numbers
parse-write_numbers [] = unfold parse_numbers in refl
parse-write_numbers (n ∷ ns) =
    parse-split (join (map str (n ∷ ns))) (join-ne-nil n ns)
    ∙ ap ints (split-join (str n) (map str ns) (every-plain (n ∷ ns)))
    ∙ ints-str (n ∷ ns)

-- without the case of the empty text, lists that are not empty are read back
pub ints-split_written :
    (n : ℕ) (ns : List ℕ) → ints (split (write_numbers (n ∷ ns))) ≡ some (n ∷ ns)
unfolding write_numbers
ints-split_written n ns =
    ap ints (split-join (str n) (map str ns) (every-plain (n ∷ ns))) ∙ ints-str (n ∷ ns)
