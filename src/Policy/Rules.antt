-- ===== src/Policy/Rules.antt =====
-- services/policy/rules.yaml: the rules as shipped.
use agent_os.Prelude.{String, some, List, [], ◌∷◌}
use agent_os.Policy.{Rule, Configuration}

abbrev rule : (decision reason : String) → (denied escalated : List String) → Rule
rule decision reason denied escalated = record {
  decision = some decision;
  reason = some reason;
  deny_if_contains = denied;
  require_approval_if_contains = escalated;
}

abbrev pub shipped : Configuration
shipped = record {
  default = some "REQUIRE_APPROVAL";
  rules =
      ("READ_FILE", rule "ALLOW" "read-only, low risk within an agent's own workspace" ([]) ([]))
      ∷ (
        "WRITE_FILE",
        rule "ALLOW"
            "allowed within isolated agent workspace only — enforced by workspace.py path scoping"
            ([]) ("/etc/" ∷ "~/.ssh" ∷ ".env" ∷ []),
      )
      ∷ (
        "EXECUTE_COMMAND",
        rule "REQUIRE_APPROVAL" "shell execution is high risk by default"
            ("rm -rf" ∷ "curl | sh" ∷ "wget | sh" ∷ ":(){ :|:& };:" ∷ "drop table" ∷ "drop database"
              ∷ [])
            ([]),
      )
      ∷ (
        "BROWSER_NAVIGATION",
        rule "ALLOW"
            "read/navigate is low risk; posting/submitting is gated separately under EXTERNAL_POST"
            ([]) ([]),
      )
      ∷ (
        "EXTERNAL_POST",
        rule "REQUIRE_APPROVAL"
            "anything published externally (Pinterest, Instagram, email, backlink pitch) needs a human sign-off until the evaluator has a strong track record"
            ([]) ([]),
      )
      ∷ (
        "GITHUB_WRITE",
        rule "REQUIRE_APPROVAL" "commits/PRs should be reviewed before landing, at least initially"
            ([]) ([]),
      )
      ∷ ("DEPLOYMENT", rule "REQUIRE_APPROVAL" "infra changes are high blast-radius" ([]) ([]))
      ∷ (
        "CREDENTIAL_ACCESS",
        rule "DENY"
            "agents should never directly read raw credentials; MCP gateway injects them into scoped tool calls instead"
            ([]) ([]),
      )
      ∷ (
        "DATABASE_WRITE",
        rule "REQUIRE_APPROVAL"
            "structured state writes go through the evaluator-approved path; direct writes need review while the system is new"
            ("drop table" ∷ "truncate" ∷ "delete from" ∷ []) ([]),
      )
      ∷ (
        "NETWORK",
        rule "ALLOW"
            "low-risk: outbound network calls for search/API reads are routine for a mission task"
            ([]) ([]),
      )
      ∷ (
        "BROWSER",
        rule "ALLOW"
            "low-risk: navigation/reading via Playwright; actual posting is gated under SOCIAL_POST separately"
            ([]) ([]),
      )
      ∷ (
        "GITHUB",
        rule "REQUIRE_APPROVAL"
            "medium-risk: same posture as GITHUB_WRITE above — repo changes need review" ([]) ([]),
      )
      ∷ (
        "DEPLOY",
        rule "REQUIRE_APPROVAL" "high-risk: production deployment always needs explicit approval"
            ([]) ([]),
      )
      ∷ (
        "SOCIAL_POST",
        rule "REQUIRE_APPROVAL"
            "high-risk: publishing externally (Pinterest, Instagram, etc.) needs a human sign-off"
            ([]) ([]),
      )
      ∷ (
        "FINANCIAL",
        rule "REQUIRE_APPROVAL"
            "high-risk: any action with financial effect always needs explicit approval, no exceptions carved out here"
            ([]) ([]),
      )
      ∷ (
        "DESTRUCTIVE",
        rule "DENY"
            "high-risk: destructive actions are never auto-approved even with human sign-off through this generic class — a specific, scoped policy rule should be added deliberately if a real destructive-but-safe action needs to exist, rather than broadly allowing this class"
            ([]) ([]),
      )
      ∷ [];
}
