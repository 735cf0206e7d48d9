-- ===== src/Mission/Recovery/Recorded.antt =====
-- What services/mission/failure_recovery.py makes of an error text, and the type of its decisions.
use agent_os.Prelude.{
  ℕ, String, ◌≡◌, ◌≢◌, refl, sym, subst, true, false, none, List, [], ◌∷◌, ◌++◌, eq_iff, All, In,
}
use agent_os.Text.{chars}
use agent_os.Regex.{Unicode, Atom, literal, search_from}
use agent_os.Regex.Phrases.{folded, StandsIn, search_from-StandsIn}
use agent_os.Mission.Recovery.Patterns.{
  FailureCategory, model_failure, tool_failure, api_failure, network_failure,
  authentication_failure, browser_failure, code_failure, test_failure, bad_plan,
  missing_information, permission_denial, external_service_failure, timeout, resource_exhaustion,
  unknown, patterns,
}
use agent_os.Mission.Recovery.{
  first_category, classify, retry_with_strategy_change, decision_type, revised,
}

first_category-StandsIn :
    (unicode : Unicode) (earlier later : List (FailureCategory × List (List Atom)))
    (category : FailureCategory) (alternatives : List (List Atom)) (before phrase after : List ℕ)
    → All (λ entry. search_from unicode entry.1 false (before ++ (phrase ++ after)) ≡ false) earlier
    → In (literal (folded phrase)) alternatives
    → StandsIn unicode phrase before after false
    → first_category unicode
        (earlier ++ ((category, alternatives) ∷ later))
        (before ++ (phrase ++ after))
      ≡ category
unfolding first_category
first_category-StandsIn unicode [] later category alternatives before phrase after missed place
      stands =
    rw (search_from-StandsIn unicode alternatives before phrase after false place stands) refl
first_category-StandsIn unicode (entry ∷ earlier) later category alternatives before phrase after
      missed place stands =
    rw missed.0 (
      first_category-StandsIn unicode earlier later category alternatives before phrase after
        missed.1 place stands)

-- An error text that has a phrase of some pattern in it, in any case and between word boundaries,
-- and in which no earlier pattern is found is of that pattern's category.
pub classify-StandsIn :
    (unicode : Unicode) (error_text : String)
    (earlier later : List (FailureCategory × List (List Atom))) (category : FailureCategory)
    (alternatives : List (List Atom)) (before phrase after : List ℕ)
    → patterns ≡ earlier ++ ((category, alternatives) ∷ later)
    → chars error_text ≡ before ++ (phrase ++ after)
    → All (λ entry. search_from unicode entry.1 false (before ++ (phrase ++ after)) ≡ false) earlier
    → In (literal (folded phrase)) alternatives
    → StandsIn unicode phrase before after false
    → classify unicode error_text ≡ category
unfolding classify
classify-StandsIn unicode error_text earlier later category alternatives before phrase after table
      text missed place stands =
    subst (λ ps. first_category unicode ps (chars error_text) ≡ category) (sym table)
      (subst
        (λ s. first_category unicode (earlier ++ ((category, alternatives) ∷ later)) s ≡ category)
        (sym text)
        (first_category-StandsIn unicode earlier later category alternatives before phrase after
          missed place stands))

pub revised_type :
    (category : FailureCategory)
    → decision_type none (revised retry_with_strategy_change category) ≡ "strategy_change"
revised_type model_failure = refl
revised_type tool_failure = refl
revised_type api_failure = refl
revised_type network_failure = refl
revised_type authentication_failure = refl
revised_type browser_failure = refl
revised_type code_failure = refl
revised_type test_failure = refl
revised_type bad_plan = refl
revised_type missing_information = refl
revised_type permission_denial = refl
revised_type external_service_failure = refl
revised_type timeout = refl
revised_type resource_exhaustion = refl
revised_type unknown = refl

pub plain_type : ◌≢◌ {A = String} "retry" "strategy_change"
plain_type e = let same : false ≡ true = (eq_iff "retry" "strategy_change").1 e in cc
