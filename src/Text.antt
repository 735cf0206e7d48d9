-- ===== src/Text.antt =====
-- Python's text as a list of code points: str.lower and the `in` of strings, as the services use
-- them with search terms in ASCII.
use Prim.Native.Char.{code}
use Prim.Native.String.{◌∷◌ as char_then, [] as no_chars}
pub use Prim.Native.String.{◌++◌ as append}
use agent_os.Prelude.{
  ℕ, suc, zero, String, ◌≡◌, refl, sym, ap, subst, inl, inr, ◌+◌, ◌-◌, ◌/◌, ◌%◌, Bool, true, false,
  ◌&&◌, ◌||◌, List, [], ◌∷◌, ◌++◌, arith, leb, ◌==◌, ==_iff, if◌then◌else◌, Bool-cases,
}

abbrev pub chars : String → List ℕ
chars no_chars = []
chars (char_then c s) = code c ∷ chars s

-- str.lower of one code point. A–Z become a–z; U+0130 and the Kelvin sign U+212A are the only code
-- points outside ASCII with an ASCII letter in their lower case. Whatever else becomes is outside
-- ASCII, and it stands for itself here: no ASCII term can tell.
abbrev pub lower_char : ℕ → List ℕ
lower_char c =
    if c == 304
    then 105 ∷ 775 ∷ []
    else if c == 8490
    then 107 ∷ []
    else if leb 65 c && leb c 90
    then (c + 32) ∷ []
    else c ∷ []

unfoldable pub lower : List ℕ → List ℕ
lower [] = []
lower (c ∷ s) = lower_char c ++ lower s

unfoldable pub starts_with : List ℕ → List ℕ → Bool
starts_with [] s = true
starts_with (c ∷ t) [] = false
starts_with (c ∷ t) (d ∷ s) = (c == d) && starts_with t s

-- t in s
unfoldable pub in_text : List ℕ → List ℕ → Bool
in_text t [] = starts_with t []
in_text t (d ∷ s) = starts_with t (d ∷ s) || in_text t s

abbrev pub Occurs : List ℕ → List ℕ → Type 0
Occurs t s = (before : List ℕ) × (after : List ℕ) × (s ≡ before ++ (t ++ after))

starts_with_splits : (t s : List ℕ) → starts_with t s ≡ true → (after : List ℕ) × (s ≡ t ++ after)
unfolding starts_with
starts_with_splits [] s h = (s, refl)
starts_with_splits (c ∷ t) [] h = cc
starts_with_splits (c ∷ t) (d ∷ s) h = elim (Bool-cases (c == d)) [
  | inl same ↦
      let e : c ≡ d = (==_iff c d).0 same in
      let (after, splits) = starts_with_splits t s (ground arith) in (after, cc)
  | inr other ↦ ground arith
]

starts_with-append : (t after : List ℕ) → starts_with t (t ++ after) ≡ true
unfolding starts_with
starts_with-append [] after = refl
starts_with-append (c ∷ t) after = ground (arith, starts_with-append t after)

pub in_text-Occurs : (t s : List ℕ) → in_text t s ≡ true → Occurs t s
unfolding in_text
in_text-Occurs t [] h = let (after, e) = starts_with_splits t [] h in ([], after, e)
in_text-Occurs t (d ∷ s) h = elim (Bool-cases (starts_with t (d ∷ s))) [
  | inl here ↦ let (after, e) = starts_with_splits t (d ∷ s) here in ([], after, e)
  | inr there ↦
      let (before, after, e) = in_text-Occurs t s (ground arith) in
      (d ∷ before, after, ap (λ r. d ∷ r) e)
]

in_text-append : (t before after : List ℕ) → in_text t (before ++ (t ++ after)) ≡ true
unfolding in_text
in_text-append t [] after =
    elim (t ++ after) as (λ r. starts_with t r ≡ true → in_text t r ≡ true) [
      | [] ↦ λ h. h
      | d ∷ s ↦ λ h. ground arith
    ]
      (starts_with-append t after)
in_text-append t (d ∷ before) after = ground (arith, in_text-append t before after)

pub Occurs-in_text : (t s : List ℕ) → Occurs t s → in_text t s ≡ true
Occurs-in_text t s o = subst (λ r. in_text t r ≡ true) (sym o.2) (in_text-append t o.0 o.1)

-- s[:n]
unfoldable pub take_text : ℕ → String → String
take_text zero s = no_chars
take_text (suc n) no_chars = no_chars
take_text (suc n) (char_then c s) = char_then c (take_text n s)

abbrev digit_from : List String → ℕ → String
digit_from [] n = "9"
digit_from (d ∷ ds) zero = d
digit_from (d ∷ ds) (suc n) = digit_from ds n

abbrev digit : ℕ → String
digit = digit_from ("0" ∷ "1" ∷ "2" ∷ "3" ∷ "4" ∷ "5" ∷ "6" ∷ "7" ∷ "8" ∷ [])

unfoldable pub decimal_digits : (fuel : ℕ) → ℕ → String → String
decimal_digits zero n after = after
decimal_digits (suc fuel) n after =
    let text = append (digit (n % 10)) after in
    let rest = decimal_digits fuel (n / 10) text in if leb n 9 then text else rest

-- str(n): each round removes a digit, so n + 1 rounds are enough
unfoldable pub decimal : ℕ → String
unfolding decimal_digits
decimal n = decimal_digits (suc n) n no_chars

abbrev pub text_length : String → ℕ
text_length no_chars = 0
text_length (char_then c s) = suc (text_length s)

unfoldable pub drop_text : ℕ → String → String
drop_text zero s = s
drop_text (suc n) no_chars = no_chars
drop_text (suc n) (char_then c s) = drop_text n s

-- s[-n:]
unfoldable pub last_text : ℕ → String → String
last_text n s = drop_text (text_length s - n) s
