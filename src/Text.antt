-- ===== src/Text.antt =====
-- Texts, and comma-separated numbers as text: `SpeakerList.order` of voteit/speaker/models.py, and the
-- votes of Scottish STV (voteit/poll/app/polls/scottish_stv.py). A text is the list of its code points.
pub mod Equal
pub mod Lines
pub mod RoundTrip
use voteit.Prelude.{
  ℕ, zero, suc, ◌+◌, ◌-◌, ◌*◌, ◌/◌, ◌%◌, Bool, true, false, ◌&&◌, ◌||◌, Option, none, some, List,
  [], ◌∷◌, ◌++◌, ◌==◌, ltb, leb, if◌then◌else◌, map,
}

abbrev pub Text : Type 0
Text = List ℕ

-- texts are equal if their codes are
abbrev pub same_text : Text → Text → Bool
same_text [] [] = true
same_text (a ∷ s) (b ∷ t) = a == b && same_text s t
same_text _ _ = false

abbrev pub text_in : Text → List Text → Bool
text_in s [] = false
text_in s (t ∷ ts) = same_text t s || text_in s ts

abbrev pub comma : ℕ
comma = 44

-- The decimal digits; a digit is used up by each round, so more rounds than the number are enough.
abbrev pub digits : ℕ → ℕ → Text
digits zero n = []
digits (suc rounds) n =
    let front = digits rounds (n / 10) in
    if ltb n 10 then (48 + n) ∷ [] else front ++ (48 + n % 10) ∷ []

-- `str(n)`
unfoldable pub str : ℕ → Text
str n = digits (suc n) n

abbrev pub is_digit : ℕ → Bool
is_digit c = leb 48 c && leb c 57

abbrev pub read_digits : ℕ → Text → Option ℕ
read_digits n [] = some n
read_digits n (c ∷ s) =
    let rest = read_digits (n * 10 + (c - 48)) s in if is_digit c then rest else none

-- `int(s)` of a text of digits. The signs, blanks and underscores that Python takes too are refused:
-- no number that is written here has any.
unfoldable pub int : Text → Option ℕ
int [] = none
int (c ∷ s) = read_digits 0 (c ∷ s)

-- `s.split(",")`: a text without commas is one part
abbrev onto_first : ℕ → List Text → List Text
onto_first c [] = (c ∷ []) ∷ []
onto_first c (p ∷ ps) = (c ∷ p) ∷ ps

abbrev pub split : Text → List Text
split [] = [] ∷ []
split (c ∷ s) = let parts = split s in if c == comma then [] ∷ parts else onto_first c parts

-- `",".join(ps)`
abbrev pub join : List Text → Text
join [] = []
join (p ∷ []) = p
join (p ∷ q ∷ ps) = p ++ comma ∷ join (q ∷ ps)

-- `[int(x) for x in parts]`: the first that is no number raises
abbrev pub ints : List Text → Option (List ℕ)
ints [] = some []
ints (p ∷ ps) = elim (int p) [
  | none ↦ none
  | some n ↦ elim (ints ps) [ none ↦ none | some ns ↦ some (n ∷ ns) ]
]

-- `SpeakerList.order_list`, and `vote_to_obj`
unfoldable pub parse_numbers : Text → Option (List ℕ)
parse_numbers [] = some []
parse_numbers (c ∷ s) = ints (split (c ∷ s))

-- the setter of `order_list`, and `vote_to_str`
unfoldable pub write_numbers : List ℕ → Text
write_numbers ns = join (map str ns)
