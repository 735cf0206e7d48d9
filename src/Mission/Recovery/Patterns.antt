-- ===== src/Mission/Recovery/Patterns.antt =====
-- FailureCategory and _PATTERNS of services/mission/failure_recovery.py. A group inside a pattern is
-- written out as two alternatives.
use agent_os.Prelude.{List, [], ◌∷◌, ◌++◌, String}
use agent_os.Text.{chars}
use agent_os.Regex.{Atom, digits, nonzero, gap, literal}

pub data FailureCategory : Type 0 where
  model_failure tool_failure api_failure network_failure authentication_failure : FailureCategory
  browser_failure code_failure test_failure bad_plan missing_information : FailureCategory
  permission_denial external_service_failure timeout resource_exhaustion unknown : FailureCategory

abbrev phrase : String → List Atom
phrase text = literal (chars text)

abbrev pub patterns : List (FailureCategory × List (List Atom))
patterns =
    (
      authentication_failure,
      phrase "401"
          ∷ phrase "unauthorized"
          ∷ phrase "invalid api key"
          ∷ phrase "authentication failed"
          ∷ phrase "invalid_api_key"
          ∷ [],
    )
    ∷ (
      permission_denial,
      phrase "403"
          ∷ phrase "forbidden"
          ∷ phrase "permission denied"
          ∷ phrase "not allowed"
          ∷ phrase "access denied"
          ∷ [],
    )
    ∷ (
      timeout,
      phrase "timeout" ∷ phrase "timed out" ∷ phrase "deadline exceeded" ∷ phrase "504" ∷ [],
    )
    ∷ (
      resource_exhaustion,
      phrase "out of memory" ∷ phrase "oom" ∷ phrase "disk full" ∷ phrase "no space left" ∷ [],
    )
    ∷ (resource_exhaustion, phrase "rate limit" ∷ phrase "429" ∷ phrase "too many requests" ∷ [])
    ∷ (
      network_failure,
      phrase "connection refused"
          ∷ phrase "connection reset"
          ∷ phrase "dns"
          ∷ phrase "name resolution"
          ∷ phrase "network unreachable"
          ∷ phrase "econnrefused"
          ∷ [],
    )
    ∷ (
      browser_failure,
      phrase "playwright"
          ∷ phrase "browser"
          ∷ phrase "navigation failed"
          ∷ phrase "page crash"
          ∷ phrase "chromium"
          ∷ [],
    )
    ∷ (
      test_failure,
      phrase "assertionerror"
          ∷ (literal (chars "test") ++ (gap ∷ (literal (chars "failed"))))
          ∷ phrase "pytest"
          ∷ (digits ∷ (literal (chars " failed,")))
          ∷ [],
    )
    ∷ (
      code_failure,
      phrase "syntaxerror"
          ∷ phrase "typeerror"
          ∷ phrase "nameerror"
          ∷ phrase "traceback"
          ∷ (literal (chars "exit code ") ++ (nonzero ∷ []))
          ∷ phrase "compilation failed"
          ∷ [],
    )
    ∷ (
      external_service_failure,
      phrase "502"
          ∷ phrase "503"
          ∷ phrase "bad gateway"
          ∷ phrase "service unavailable"
          ∷ phrase "upstream"
          ∷ [],
    )
    ∷ (
      api_failure,
      phrase "400" ∷ phrase "422" ∷ phrase "api error" ∷ phrase "invalid request" ∷ [],
    )
    ∷ (
      tool_failure,
      (literal (chars "tool") ++ (gap ∷ (literal (chars "not allowed"))))
          ∷ (literal (chars "tool") ++ (gap ∷ (literal (chars "not configured"))))
          ∷ (literal (chars "mcp") ++ (gap ∷ (literal (chars "error"))))
          ∷ [],
    )
    ∷ (
      missing_information,
      phrase "not found"
          ∷ phrase "no such file"
          ∷ phrase "missing required"
          ∷ phrase "undefined"
          ∷ phrase "does not exist"
          ∷ [],
    )
    ∷ (
      model_failure,
      phrase "model did not return"
          ∷ phrase "invalid json"
          ∷ phrase "hallucinat"
          ∷ phrase "malformed response"
          ∷ [],
    )
    ∷ []
