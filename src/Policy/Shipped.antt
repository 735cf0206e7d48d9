-- ===== src/Policy/Shipped.antt =====
-- services/policy/engine.py under services/policy/rules.yaml.
use agent_os.Prelude.{
  String, ◌≡◌, ◌≢◌, refl, subst, inl, inr, true, false, List, [], ◌∷◌, All, str_eq, eq_iff,
}
use agent_os.Policy.{
  action_categories, is_category, find_rule, apply_rule, evaluate, first_match, Configuration,
}
use agent_os.Policy.Rules.{shipped}
use agent_os.Policy.Decisions.{
  Among, any-Among, Mentions, Permits, evaluate_allows_iff, deny_is_not_allow, ask_is_not_allow,
}

-- The actions that the shipped rules may let through without a human.
abbrev pub unattended : List String
unattended = "READ_FILE" ∷ "WRITE_FILE" ∷ "BROWSER_NAVIGATION" ∷ "NETWORK" ∷ "BROWSER" ∷ []

-- The terms for which a WRITE_FILE waits for a human.
abbrev pub sensitive_paths : List String
sensitive_paths = "/etc/" ∷ "~/.ssh" ∷ ".env" ∷ []

All-Among : (P : String → Type 0) (xs : List String) → All P xs → (a : String) → Among a xs → P a
All-Among P [] h a place = absurd place
All-Among P (x ∷ xs) h a (inl e) = subst P e h.0
All-Among P (x ∷ xs) h a (inr later) = All-Among P xs h.1 a later

abbrev Restricted : String → String → Type 0
Restricted payload action =
    Permits shipped action payload (find_rule action shipped.rules)
    → Among action unattended × (action ≡ "WRITE_FILE" → ¬ Mentions payload sensitive_paths)

other_action : (a : String) → str_eq a "WRITE_FILE" ≡ false → a ≢ "WRITE_FILE"
other_action a h e = let same : str_eq a "WRITE_FILE" ≡ true = (eq_iff a "WRITE_FILE").1 e in cc

each_Restricted : (payload : String) → All (Restricted payload) action_categories
unfolding find_rule
each_Restricted payload = (
  (λ h. (inl refl, (λ e. absurd (other_action "READ_FILE" refl e)))),
  (
    (λ h. (inr (inl refl), (λ e. h.2))),
    (
      (λ h. absurd (ask_is_not_allow h.0)),
      (
        (λ h. (inr (inr (inl refl)), (λ e. absurd (other_action "BROWSER_NAVIGATION" refl e)))),
        (
          (λ h. absurd (ask_is_not_allow h.0)),
          (
            (λ h. absurd (ask_is_not_allow h.0)),
            (
              (λ h. absurd (ask_is_not_allow h.0)),
              (
                (λ h. absurd (deny_is_not_allow h.0)),
                (
                  (λ h. absurd (ask_is_not_allow h.0)),
                  (
                    (λ h. (
                      inr (inr (inr (inl refl))),
                      (λ e. absurd (other_action "NETWORK" refl e)),
                    )),
                    (
                      (λ h. (
                        inr (inr (inr (inr (inl refl)))),
                        (λ e. absurd (other_action "BROWSER" refl e)),
                      )),
                      (
                        (λ h. absurd (ask_is_not_allow h.0)),
                        (
                          (λ h. absurd (ask_is_not_allow h.0)),
                          (
                            (λ h. absurd (ask_is_not_allow h.0)),
                            (
                              (λ h. absurd (ask_is_not_allow h.0)),
                              ((λ h. absurd (deny_is_not_allow h.0)), tt),
                            ),
                          ),
                        ),
                      ),
                    ),
                  ),
                ),
              ),
            ),
          ),
        ),
      ),
    ),
  ),
)

-- Under the shipped rules only READ_FILE, WRITE_FILE, BROWSER_NAVIGATION, NETWORK and BROWSER are
-- ever allowed, and a WRITE_FILE only if its payload mentions none of /etc/, ~/.ssh and .env.
pub shipped_allows_only :
    (action payload : String)
    → (evaluate shipped action payload).result ≡ "ALLOW"
    → Among action unattended × (action ≡ "WRITE_FILE" → ¬ Mentions payload sensitive_paths)
unfolding is_category
shipped_allows_only action payload allowed =
    let (known, permits) = (evaluate_allows_iff shipped action payload).0 allowed in
    All-Among (Restricted payload) action_categories (each_Restricted payload) action
      (any-Among action action_categories known) permits

-- Under the shipped rules DESTRUCTIVE and CREDENTIAL_ACCESS are denied with any payload, and so is
-- every action outside the categories, under any configuration.
pub always_denied :
    (config : Configuration) (payload other : String)
    → is_category other ≡ false
    → ((evaluate shipped "DESTRUCTIVE" payload).result ≡ "DENY")
      × ((evaluate shipped "CREDENTIAL_ACCESS" payload).result ≡ "DENY")
      × ((evaluate config other payload).result ≡ "DENY")
unfolding evaluate apply_rule find_rule is_category first_match
always_denied config payload other unknown = (refl, refl, rw unknown refl)
