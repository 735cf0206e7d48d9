-- ===== src/Approval/Samples.antt =====
-- Runs of services/approval/manager.py, and its theorems at them.
use agent_os.Prelude.{String, ◌≡◌, refl, inl, inr, none, some, List, [], ◌∷◌, All, arith}
use agent_os.Errors.{ok, err, permission_error, lookup_error}
use agent_os.Sql.Keyed.{IsKeyed}
use agent_os.Approval.{
  Approval, Approvals, approved, denied, new_approval, settle, request, update_pending, is_agent,
  decision_status, resolve,
}
use agent_os.Approval.Human.{
  Call, requests, resolves, run, ByHuman, run-ByHuman, approval_row, resolved_once,
}

program : Unit {0}
unfolding request update_pending is_agent decision_status resolve
program = tt

abbrev asked : Approval
asked = new_approval 1 5 40 (some "seo-1") "DEPLOY" "ship it"

abbrev closed : Approval
closed = settle denied "maria" 6 (new_approval 2 5 41 (some "seo-1") "FINANCIAL" "buy it")

abbrev desk : Approvals
desk = asked ∷ closed ∷ []

abbrev agents : List String
agents = "seo-1" ∷ "coder-2" ∷ []

agent_is_refused : resolve 1 "approve" "seo-1" agents 9 desk ≡ (err permission_error, desk)
unfolding program
agent_is_refused = refl

second_decision_raises : resolve 2 "approve" "maria" agents 9 desk ≡ (err lookup_error, desk)
unfolding program
second_decision_raises = refl

maria_approves :
    (resolve 1 "approve" "maria" agents 9 desk).0 ≡ ok (settle approved "maria" 9 asked)
unfolding program
maria_approves = refl

desk-keys : IsKeyed (λ (a : Approval). a.approval_id) desk
desk-keys = omega arith

abbrev day : List Call
day =
    resolves 1 "approve" "seo-1" 7
    ∷ requests 3 8 42 none "DEPLOY" "again"
    ∷ resolves 2 "approve" "omar" 9
    ∷ resolves 1 "approve" "maria" 10
    ∷ []

desk-ByHuman : All (ByHuman agents) desk
unfolding program
desk-ByHuman = (inl refl, (inr ("maria", refl, refl), tt))

run-ByHuman_example : All (ByHuman agents) (run agents day desk)
run-ByHuman_example = run-ByHuman agents day desk desk-ByHuman

resolved_once_example : approval_row 2 (run agents day desk) ≡ some closed
resolved_once_example = resolved_once agents day desk 2 closed refl refl
