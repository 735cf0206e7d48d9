-- ===== src/Regex/Phrases.antt =====
-- What a search for services/mission/failure_recovery.py finds of a phrase.
use agent_os.Prelude.{
  ℕ, ◌≡◌, refl, sym, subst, inl, inr, Bool, true, List, [], ◌∷◌, ◌++◌, any, arith, In,
}
use agent_os.Regex.{
  Unicode, Atom, literal, fold_case, is_word, boundary, match_here, match_any, search_from,
}

-- Is the last character of `s` a word's? `after_word` says it of what stands before.
abbrev pub ends_word : Unicode → Bool → List ℕ → Bool
ends_word unicode after_word [] = after_word
ends_word unicode after_word (c ∷ s) = ends_word unicode (is_word unicode c) s

abbrev pub folded : List ℕ → List ℕ
folded [] = []
folded (c ∷ s) = fold_case c ∷ folded s

match_here-literal :
    (unicode : Unicode) (found after : List ℕ) (after_word : Bool)
    → boundary unicode (ends_word unicode after_word found) after ≡ true
    → match_here unicode (literal (folded found)) after_word (found ++ after) ≡ true
unfolding match_here
match_here-literal unicode [] after after_word h = h
match_here-literal unicode (c ∷ found) after after_word h =
    ground (arith, match_here-literal unicode found after (is_word unicode c) h)

any-In :
    (p : List Atom → Bool) (atoms : List Atom) (alternatives : List (List Atom))
    → In atoms alternatives
    → p atoms ≡ true
    → any p alternatives ≡ true
any-In p atoms [] place h = absurd place
any-In p atoms (x ∷ rest) (inl e) h =
    let here : p x ≡ true = subst (λ y. p y ≡ true) (sym e) h in ground arith
any-In p atoms (x ∷ rest) (inr later) h = ground (arith, any-In p atoms rest later h)

search_from_here :
    (unicode : Unicode) (alternatives : List (List Atom)) (after_word : Bool) (s : List ℕ)
    → match_any unicode alternatives after_word s ≡ true
    → search_from unicode alternatives after_word s ≡ true
unfolding search_from
search_from_here unicode alternatives after_word [] h = h
search_from_here unicode alternatives after_word (c ∷ s) h = rw h refl

-- The phrase stands in the text as words of their own.
abbrev pub StandsIn : Unicode → (phrase before after : List ℕ) → Bool → Type 0
StandsIn unicode phrase before after after_word =
    let start = ends_word unicode after_word before in
    (boundary unicode start (phrase ++ after) ≡ true)
    × (boundary unicode (ends_word unicode start phrase) after ≡ true)

-- A search finds a text that has one of its phrases, in any case, between word boundaries.
pub search_from-StandsIn :
    (unicode : Unicode) (alternatives : List (List Atom)) (before phrase after : List ℕ)
    (after_word : Bool)
    → In (literal (folded phrase)) alternatives
    → StandsIn unicode phrase before after after_word
    → search_from unicode alternatives after_word (before ++ (phrase ++ after)) ≡ true
unfolding search_from
search_from-StandsIn unicode alternatives [] phrase after after_word place h =
    search_from_here unicode alternatives after_word (phrase ++ after) (
      rw
        (
          h.0,
          any-In (λ atoms. match_here unicode atoms after_word (phrase ++ after))
              (literal (folded phrase)) alternatives place
              (match_here-literal unicode phrase after after_word h.1),
        )
        refl)
search_from-StandsIn unicode alternatives (c ∷ before) phrase after after_word place h = ground (
  arith,
  search_from-StandsIn unicode alternatives before phrase after (is_word unicode c) place h,
)
