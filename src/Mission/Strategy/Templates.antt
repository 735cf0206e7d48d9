-- ===== src/Mission/Strategy/Templates.antt =====
-- STRATEGY_TEMPLATES and next_template of services/mission/strategy.py.
use agent_os.Prelude.{
  ℕ, suc, zero, String, ◌≡◌, refl, sym, List, [], ◌∷◌, str_eq, if◌then◌else◌, length, ◌≤◌, ◌∙◌,
  arith,
}
use agent_os.Json.{Json, num, str, obj, field, end}

abbrev plan : (approach : String) → Json
plan approach = obj (field "approach" (str approach) end)

abbrev plan_with : (approach key : String) → Json → Json
plan_with approach key value = obj (field "approach" (str approach) (field key value end))

-- STRATEGY_TEMPLATES.get(category), `[]` for a category that it does not have
unfoldable pub templates : String → List Json
templates category =
    if str_eq category "authentication_failure"
    then plan_with "refresh_credentials_and_retry" "note"
        (str "re-read the current OPENROUTER_API_KEY/GITHUB_TOKEN from env in case it rotated")
      ∷ plan_with "escalate_to_human" "note"
          (str "credentials are likely genuinely invalid, not stale")
      ∷ []
    else if str_eq category "browser_failure"
    then plan_with "click_by_selector" "playwright_strategy" (str "css_selector")
      ∷ plan_with "click_by_text" "playwright_strategy" (str "text_locator")
      ∷ plan_with "alternative_navigation_path" "playwright_strategy" (str "direct_url")
      ∷ []
    else if str_eq category "missing_information"
    then plan_with "research_source_primary" "source_priority" (num 1)
      ∷ plan_with "research_source_alternative" "source_priority" (num 2)
      ∷ []
    else if str_eq category "code_failure"
    then plan_with "opencode_direct_execution" "runtime" (str "opencode")
      ∷ obj (
          field "approach" (str "opencode_with_narrower_scope") (
            field "runtime" (str "opencode")
              (field "note" (str "break the failing step into smaller sub-instructions") end)))
      ∷ []
    else []

-- templates[min(attempt_number, len(templates) - 1)]
abbrev pub element : List Json → Json → ℕ → Json
element [] last n = last
element (t ∷ ts) last zero = t
element (t ∷ ts) last (suc n) = element ts t n

abbrev pub generic : ℕ → Json
generic attempt_number = plan_with "generic_retry_with_variation" "variant" (num attempt_number)

abbrev pub pick : List Json → ℕ → Json
pick [] attempt_number = generic attempt_number
pick (t ∷ ts) attempt_number = element (t ∷ ts) t attempt_number

unfoldable pub next_template : String → ℕ → Json
next_template category attempt_number = pick (templates category) attempt_number

abbrev final : Json → List Json → Json
final t [] = t
final t (u ∷ us) = final u us

element_settles :
    (t : Json) (ts : List Json) (last : Json) (n : ℕ)
    → length ts ≤ n
    → element (t ∷ ts) last n ≡ final t ts
element_settles t [] last zero h = refl
element_settles t (u ∷ us) last zero h = absurd (omega (arith, h))
element_settles t [] last (suc n) h = refl
element_settles t (u ∷ us) last (suc n) h = element_settles u us t n (omega (arith, h))

-- For a category with templates, every attempt from the last template on gets that one again:
-- next_template stops there and does not cycle.
pub next_template_repeats :
    (category : String) (m n : ℕ)
    → 1 ≤ length (templates category)
    → length (templates category) ≤ suc m
    → length (templates category) ≤ suc n
    → next_template category m ≡ next_template category n
unfolding next_template
next_template_repeats category m n some_template h k =
    pick_settles (templates category) some_template h k
  where
    pick_settles :
        (ts : List Json)
        → 1 ≤ length ts
        → length ts ≤ suc m
        → length ts ≤ suc n
        → pick ts m ≡ pick ts n
    pick_settles [] one h k = absurd (omega (arith, one))
    pick_settles (t ∷ ts) one h k =
        element_settles t ts t m (omega (arith, h))
        ∙ sym (element_settles t ts t n (omega (arith, k)))
