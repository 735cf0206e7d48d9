-- ===== src/Policy/Samples.antt =====
-- Runs of services/policy/engine.py, and its theorems at them.
use agent_os.Prelude.{String, ◌≡◌, refl, ◌↔◌, inl, true, false, none, some, [], ◌∷◌}
use agent_os.Errors.{ok, err, value_error, file_not_found}
use agent_os.Text.{lower, starts_with, in_text, chars}
use agent_os.Policy.{
  Rule, Configuration, is_category, find_rule, load_rules, first_match, apply_rule, evaluate,
}
use agent_os.Policy.Rules.{shipped}
use agent_os.Policy.Decisions.{Among, Mentions, Permits, evaluate_allows_iff}
use agent_os.Policy.Shipped.{unattended, sensitive_paths, shipped_allows_only}

program : Unit {0}
unfolding lower starts_with in_text is_category find_rule load_rules first_match apply_rule evaluate
program = tt

shipped_loads : load_rules (some (some shipped)) ≡ ok shipped
unfolding program
shipped_loads = refl

missing_file_raises : load_rules none ≡ err file_not_found
unfolding program
missing_file_raises = refl

abbrev commands : Rule
commands = record {
  decision = some "REQUIRE_APPROVAL";
  reason = some "shell execution is high risk by default";
  deny_if_contains =
      "rm -rf" ∷ "curl | sh" ∷ "wget | sh" ∷ ":(){ :|:& };:" ∷ "drop table" ∷ "drop database" ∷ [];
  require_approval_if_contains = [];
}

abbrev odd : Configuration
odd = record { default = none; rules = ("LAUNCH", commands) ∷ [] }

unknown_category_raises : load_rules (some (some odd)) ≡ err value_error
unfolding program
unknown_category_raises = refl

environment_file_waits : (evaluate shipped "WRITE_FILE" "app/.ENV").result ≡ "REQUIRE_APPROVAL"
unfolding program
environment_file_waits = refl

allowed_write : (evaluate shipped "WRITE_FILE" "out/report.md").result ≡ "ALLOW"
unfolding program
allowed_write = refl

evaluate_allows_iff_example : ((evaluate shipped "WRITE_FILE" "out/report.md").result ≡ "ALLOW") ↔ (
    (is_category "WRITE_FILE" ≡ true)
    × Permits shipped "WRITE_FILE" "out/report.md" (find_rule "WRITE_FILE" shipped.rules))
evaluate_allows_iff_example = evaluate_allows_iff shipped "WRITE_FILE" "out/report.md"

command_rule : find_rule "EXECUTE_COMMAND" shipped.rules ≡ some commands
unfolding program
command_rule = refl

wipes : Mentions "sudo RM -rf /" commands.deny_if_contains
unfolding program
wipes = ("rm -rf", inl refl, (chars "sudo ", chars " /", refl))

shipped_allows_only_example :
    Among "WRITE_FILE" unattended
    × (◌≡◌ {A = String} "WRITE_FILE" "WRITE_FILE" → ¬ Mentions "out/report.md" sensitive_paths)
shipped_allows_only_example = shipped_allows_only "WRITE_FILE" "out/report.md" allowed_write

launch_is_unknown : is_category "LAUNCH" ≡ false
unfolding program
launch_is_unknown = refl
