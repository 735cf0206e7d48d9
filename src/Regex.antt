-- ===== src/Regex.antt =====
-- The part of Python's `re` that services/mission/failure_recovery.py uses: search, ignoring case,
-- for alternatives between two word boundaries.
pub mod Phrases
use agent_os.Prelude.{
  ℕ, suc, zero, String, Bool, true, false, not, ◌&&◌, ◌||◌, List, [], ◌∷◌, ◌++◌, ◌+◌, ◌==◌, leb,
  if◌then◌else◌, any,
}
use agent_os.Text.{chars}

-- The Unicode database, for code points from 128 on: str.isalnum and str.isdecimal.
pub record Unicode : Type 0 where
  pub alphanumeric : ℕ → Bool
  pub decimal : ℕ → Bool

-- a literal, \d+, [1-9] and .*
pub data Atom : Type 0 where
  letter : ℕ → Atom
  digits nonzero gap : Atom

abbrev pub literal : List ℕ → List Atom
literal [] = []
literal (c ∷ s) = letter c ∷ literal s

-- Case folding into ASCII: A–Z, U+0130 and U+0131 to i, U+017F to s, U+212A to k.
abbrev pub fold_case : ℕ → ℕ
fold_case c =
    if leb 65 c && leb c 90
    then c + 32
    else if (c == 304) || (c == 305)
    then 105
    else if c == 383
    then 115
    else if c == 8490
    then 107
    else c

-- \w
abbrev pub is_word : Unicode → ℕ → Bool
is_word unicode c =
    (leb 48 c && leb c 57)
    || (leb 65 c && leb c 90)
    || (leb 97 c && leb c 122)
    || (c == 95)
    || (leb 128 c && unicode.alphanumeric c)

-- \d
abbrev pub is_digit : Unicode → ℕ → Bool
is_digit unicode c = (leb 48 c && leb c 57) || (leb 128 c && unicode.decimal c)

abbrev pub differs : Bool → Bool → Bool
differs true b = not b
differs false b = b

-- \b, after a character that is a word's or not
abbrev pub boundary : Unicode → Bool → List ℕ → Bool
boundary unicode after_word [] = after_word
boundary unicode after_word (c ∷ s) = differs after_word (is_word unicode c)

-- What is left to match, given whether a word's character was met last.
abbrev pub Rest : Type 0
Rest = (after_word : Bool) → List ℕ → Bool

abbrev pub one : Unicode → (ℕ → Bool) → Rest → Rest
one unicode accepts rest after_word [] = false
one unicode accepts rest after_word (c ∷ s) = accepts c && rest (is_word unicode c) s

abbrev pub many : Unicode → (ℕ → Bool) → Rest → Rest
many unicode accepts rest after_word [] = rest after_word []
many unicode accepts rest after_word (c ∷ s) =
    let further = many unicode accepts rest (is_word unicode c) s in
    rest after_word (c ∷ s) || (accepts c && further)

-- The atoms one after the other, and then \b.
unfoldable pub match_here : Unicode → List Atom → Rest
match_here unicode [] = boundary unicode
match_here unicode (letter c ∷ atoms) =
    one unicode (λ x. fold_case x == c) (match_here unicode atoms)
match_here unicode (digits ∷ atoms) =
    one unicode (is_digit unicode) (many unicode (is_digit unicode) (match_here unicode atoms))
match_here unicode (nonzero ∷ atoms) =
    one unicode (λ x. leb 49 x && leb x 57) (match_here unicode atoms)
match_here unicode (gap ∷ atoms) = many unicode (λ x. not (x == 10)) (match_here unicode atoms)

abbrev pub match_any : Unicode → List (List Atom) → Rest
match_any unicode alternatives after_word s =
    boundary unicode after_word s
    && any (λ atoms. match_here unicode atoms after_word s) alternatives

-- pattern.search(s) is not None
unfoldable pub search_from : Unicode → List (List Atom) → Rest
search_from unicode alternatives after_word [] = match_any unicode alternatives after_word []
search_from unicode alternatives after_word (c ∷ s) =
    let further = search_from unicode alternatives (is_word unicode c) s in
    match_any unicode alternatives after_word (c ∷ s) || further
