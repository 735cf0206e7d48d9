-- ===== src/Policy.antt =====
-- services/policy/engine.py: ALLOW, DENY or REQUIRE_APPROVAL for an action and its payload.
pub mod Rules
pub mod Decisions
pub mod Shipped
pub mod Samples
use Prim.Native.String.{◌++◌}
use agent_os.Prelude.{
  ℕ, String, Bool, true, false, not, Option, none, some, List, [], ◌∷◌, str_eq, ◌||◌, if◌then◌else◌,
  any, all,
}
use agent_os.Errors.{Error, Result, ok, err}
use agent_os.Text.{chars, lower, in_text}

-- ACTION_CATEGORIES
abbrev pub action_categories : List String
action_categories =
    "READ_FILE" ∷ "WRITE_FILE" ∷ "EXECUTE_COMMAND" ∷ "BROWSER_NAVIGATION" ∷ "EXTERNAL_POST"
    ∷ "GITHUB_WRITE" ∷ "DEPLOYMENT" ∷ "CREDENTIAL_ACCESS" ∷ "DATABASE_WRITE" ∷ "NETWORK" ∷ "BROWSER"
    ∷ "GITHUB" ∷ "DEPLOY" ∷ "SOCIAL_POST" ∷ "FINANCIAL" ∷ "DESTRUCTIVE" ∷ []

-- action in ACTION_CATEGORIES
unfoldable pub is_category : String → Bool
is_category action = any (λ a. str_eq a action) action_categories

-- A rule of rules.yaml; a field that the file leaves out is `none`, a list `[]`. The decision is
-- whatever text the file has: the loader does not look at it.
pub record Rule : Type 0 where
  pub decision : Option String
  pub reason : Option String
  pub deny_if_contains : List String
  pub require_approval_if_contains : List String

pub record Configuration : Type 0 where
  pub default : Option String
  pub rules : List (String × Rule)

pub record PolicyDecision : Type 0 where
  pub action : String
  pub result : String
  pub reason : String
  pub matched_rule : Option String

unfoldable pub find_rule : String → List (String × Rule) → Option Rule
find_rule action [] = none
find_rule action ((name, rule) ∷ rules) =
    if str_eq name action then some rule else find_rule action rules

abbrev pub or_else : Option String → String → String
or_else none text = text
or_else (some given) text = given

-- _load_rules: the file may be missing (the outer `none`) or empty (the inner one).
unfoldable pub load_rules : Option (Option Configuration) → Result Configuration
load_rules none = err Error.file_not_found
load_rules (some none) = ok (record { default = none; rules = [] })
load_rules (some (some loaded)) =
    if all (λ entry. is_category entry.0) loaded.rules then ok loaded else err Error.value_error

-- The first term of the list that the payload contains, both in lower case.
unfoldable pub first_match : List String → List ℕ → Option String
first_match [] payload_str = none
first_match (kw ∷ kws) payload_str =
    if in_text (lower (chars kw)) payload_str then some kw else first_match kws payload_str

abbrev decided : String → Rule → Option String → Option String → PolicyDecision
decided action rule (some kw) _ = record {
  action = action;
  result = "DENY";
  reason = "payload matched restricted term '" ++ (kw ++ "'");
  matched_rule = some action;
}
decided action rule none (some kw) = record {
  action = action;
  result = "REQUIRE_APPROVAL";
  reason = "payload matched escalation term '" ++ (kw ++ "'");
  matched_rule = some action;
}
decided action rule none none = record {
  action = action;
  result = or_else rule.decision "REQUIRE_APPROVAL";
  reason = or_else rule.reason "matched configured rule";
  matched_rule = some action;
}

unfoldable pub apply_rule : Configuration → String → String → Option Rule → PolicyDecision
apply_rule config action payload none = record {
  action = action;
  result = or_else config.default "REQUIRE_APPROVAL";
  reason = "no explicit rule for '" ++ (action ++ "', using default policy");
  matched_rule = none;
}
apply_rule config action payload (some rule) =
    let payload_str = lower (chars payload) in
    decided action rule (first_match rule.deny_if_contains payload_str)
      (first_match rule.require_approval_if_contains payload_str)

unfoldable pub evaluate : Configuration → (action payload : String) → PolicyDecision
evaluate config action payload =
    if not (is_category action)
    then record {
      action = action;
      result = "DENY";
      reason = "unknown action category '" ++ (action ++ "' — deny by default");
      matched_rule = none;
    }
    else apply_rule config action payload (find_rule action config.rules)
