-- ===== src/Policy/Decisions.antt =====
-- When services/policy/engine.py allows and when it denies, for any configuration.
use agent_os.Prelude.{
  String, ◌≡◌, ◌≢◌, refl, sym, subst, ◌↔◌, ◌⊎◌, inl, inr, true, false, Option, none, some, List, [],
  ◌∷◌, str_eq, eq_iff, any, Bool-cases, Option-cases, arith,
}
use agent_os.Text.{chars, lower, in_text, Occurs, in_text-Occurs, Occurs-in_text}
use agent_os.Policy.{
  is_category, Rule, Configuration, find_rule, or_else, first_match, apply_rule, evaluate,
}

-- Membership, for texts.
abbrev pub Among : String → List String → Type 0
Among a [] = ⊥
Among a (x ∷ xs) = (x ≡ a) ⊎ Among a xs

-- The payload has a term of the list in it, whatever the case of either.
abbrev pub Mentions : String → List String → Type 0
Mentions payload terms =
    (kw : String) × Among kw terms × Occurs (lower (chars kw)) (lower (chars payload))

-- What allows an action: a rule for it that says ALLOW and none of whose terms the payload
-- mentions, or no rule and a default of ALLOW.
abbrev pub Permits : Configuration → (action payload : String) → Option Rule → Type 0
Permits config action payload none = or_else config.default "REQUIRE_APPROVAL" ≡ "ALLOW"
Permits config action payload (some rule) =
    (or_else rule.decision "REQUIRE_APPROVAL" ≡ "ALLOW")
    × ¬ Mentions payload rule.deny_if_contains
    × ¬ Mentions payload rule.require_approval_if_contains

pub any-Among : (a : String) (xs : List String) → any (λ x. str_eq x a) xs ≡ true → Among a xs
any-Among a [] h = cc
any-Among a (x ∷ xs) h = elim (Bool-cases (str_eq x a)) [
  | inl same ↦ inl ((eq_iff x a).0 same)
  | inr other ↦ inr (any-Among a xs (ground arith))
]

first_match_found :
    (kws : List String) (payload kw : String)
    → first_match kws (lower (chars payload)) ≡ some kw
    → Mentions payload kws
unfolding first_match
first_match_found [] payload kw h = cc
first_match_found (k ∷ kws) payload kw h =
    elim (Bool-cases (in_text (lower (chars k)) (lower (chars payload)))) [
      | inl here ↦ (k, inl refl, in_text-Occurs (lower (chars k)) (lower (chars payload)) here)
      | inr there ↦
          let (term, place, occurs) = first_match_found kws payload kw (ground arith) in
          (term, inr place, occurs)
    ]

first_match-none :
    (kws : List String) (payload : String)
    → first_match kws (lower (chars payload)) ≡ none
    → ¬ Mentions payload kws
unfolding first_match
first_match-none [] payload h (kw, place, occurs) = absurd place
first_match-none (k ∷ kws) payload h (kw, place, occurs) =
    elim (Bool-cases (in_text (lower (chars k)) (lower (chars payload)))) [
      | inl here ↦ ground arith
      | inr there ↦ elim place [
        | inl e ↦
            let present : in_text (lower (chars k)) (lower (chars payload)) ≡ true =
              Occurs-in_text (lower (chars k)) (lower (chars payload))
                (subst (λ t. Occurs (lower (chars t)) (lower (chars payload))) (sym e) occurs) in
            cc
        | inr later ↦ first_match-none kws payload (ground arith) (kw, later, occurs)
      ]
    ]

pub deny_is_not_allow : ◌≢◌ {A = String} "DENY" "ALLOW"
deny_is_not_allow e = let same : false ≡ true = (eq_iff "DENY" "ALLOW").1 e in cc

pub ask_is_not_allow : ◌≢◌ {A = String} "REQUIRE_APPROVAL" "ALLOW"
ask_is_not_allow e = let same : false ≡ true = (eq_iff "REQUIRE_APPROVAL" "ALLOW").1 e in cc

apply_rule_allows :
    (config : Configuration) (action payload : String) (rule : Option Rule)
    → ((apply_rule config action payload rule).result ≡ "ALLOW")
      ↔ Permits config action payload rule
unfolding apply_rule
apply_rule_allows config action payload none = ((λ h. h), (λ h. h))
apply_rule_allows config action payload (some rule) =
    let text = lower (chars payload) in
    elim (Option-cases (first_match rule.deny_if_contains text)) [
      | inl clean ↦ elim (Option-cases (first_match rule.require_approval_if_contains text)) [
        | inl calm ↦
            rw (clean, calm)
              (
                (λ h. (
                  h,
                  first_match-none rule.deny_if_contains payload clean,
                  first_match-none rule.require_approval_if_contains payload calm,
                )),
                (λ h. h.0),
              )
        | inr (kw, first) ↦
            rw (clean, first)
              (
                (λ h. absurd (ask_is_not_allow h)),
                (λ h.
                    absurd
                      (h.2 (first_match_found rule.require_approval_if_contains payload kw first))),
              )
      ]
      | inr (kw, first) ↦ rw first (
        (λ h. absurd (deny_is_not_allow h)),
        (λ h. absurd (h.1 (first_match_found rule.deny_if_contains payload kw first))),
      )
    ]

-- evaluate answers ALLOW exactly for a known action that either has a rule that says ALLOW and
-- whose lists hold no term that the payload mentions, in any case, or has no rule while the default
-- is ALLOW.
pub evaluate_allows_iff :
    (config : Configuration) (action payload : String)
    → ((evaluate config action payload).result ≡ "ALLOW") ↔ (
        (is_category action ≡ true) × Permits config action payload (find_rule action config.rules))
unfolding evaluate
evaluate_allows_iff config action payload = elim (Bool-cases (is_category action)) [
  | inl known ↦
      let (there, back) = apply_rule_allows config action payload (find_rule action config.rules) in
      rw known ((λ h. (refl, there h)), (λ h. back h.1))
  | inr unknown ↦ rw unknown ((λ h. absurd (deny_is_not_allow h)), (λ h. cc))
]

-- A payload that mentions, in any case, a term that the rule of its action denies is denied,
-- whatever else the rule says.
pub denied_term_denies :
    (config : Configuration) (action payload : String) (rule : Rule)
    → find_rule action config.rules ≡ some rule
    → Mentions payload rule.deny_if_contains
    → (evaluate config action payload).result ≡ "DENY"
unfolding evaluate apply_rule
denied_term_denies config action payload rule found mentions =
    elim (Option-cases (first_match rule.deny_if_contains (lower (chars payload)))) [
      | inl nothing ↦ absurd (first_match-none rule.deny_if_contains payload nothing mentions)
      | inr (kw, first) ↦ elim (Bool-cases (is_category action)) [
        | inl known ↦ rw (known, found, first) refl
        | inr unknown ↦ rw unknown refl
      ]
    ]
