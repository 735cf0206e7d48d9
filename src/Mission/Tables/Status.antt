-- ===== src/Mission/Tables/Status.antt =====
-- The statuses and kinds that the mission tables hold as TEXT, in the source's words.
use agent_os.Prelude.{ℕ, ◌≡◌, ◌↔◌, refl, Bool, false, true, ◌||◌, List, [], ◌∷◌, arith, ◌==◌}

pub data MissionStatus : Type 0 where
  created analyzing planning executing verifying blocked retrying : MissionStatus
  waiting_approval completed failed cancelled : MissionStatus

pub data TaskStatus : Type 0 where
  pending dispatched running verifying passed blocked skipped unknown_after_crash : TaskStatus

pub data EvidenceKind : Type 0 where
  test_result build_result lint_result deployment_health_check source_reference : EvidenceKind
  extracted_evidence cross_check_result browser_action_result screenshot_ref : EvidenceKind
  container_health http_health_check service_response log_excerpt : EvidenceKind

pub data EvidenceStatus : Type 0 where
  claimed verification_pending verified verification_failed rejected expired : EvidenceStatus

abbrev mission_rank : MissionStatus → ℕ
mission_rank created = 0
mission_rank analyzing = 1
mission_rank planning = 2
mission_rank executing = 3
mission_rank verifying = 4
mission_rank blocked = 5
mission_rank retrying = 6
mission_rank waiting_approval = 7
mission_rank completed = 8
mission_rank failed = 9
mission_rank cancelled = 10

abbrev task_rank : TaskStatus → ℕ
task_rank pending = 0
task_rank dispatched = 1
task_rank running = 2
task_rank verifying = 3
task_rank passed = 4
task_rank blocked = 5
task_rank skipped = 6
task_rank unknown_after_crash = 7

abbrev evidence_rank : EvidenceStatus → ℕ
evidence_rank claimed = 0
evidence_rank verification_pending = 1
evidence_rank verified = 2
evidence_rank verification_failed = 3
evidence_rank rejected = 4
evidence_rank expired = 5

-- status = $n, for each of the three columns
unfoldable pub same_mission : MissionStatus → MissionStatus → Bool
same_mission a b = mission_rank a == mission_rank b

unfoldable pub same_task : TaskStatus → TaskStatus → Bool
same_task a b = task_rank a == task_rank b

unfoldable pub same_evidence : EvidenceStatus → EvidenceStatus → Bool
same_evidence a b = evidence_rank a == evidence_rank b

pub same_mission_iff : (a b : MissionStatus) → (same_mission a b ≡ true) ↔ (a ≡ b)
unfolding same_mission
same_mission_iff a b = ground arith

pub same_task_iff : (a b : TaskStatus) → (same_task a b ≡ true) ↔ (a ≡ b)
unfolding same_task
same_task_iff a b = ground arith

pub same_evidence_iff : (a b : EvidenceStatus) → (same_evidence a b ≡ true) ↔ (a ≡ b)
unfolding same_evidence
same_evidence_iff a b = ground arith

-- `status in {…}`
abbrev pub mission_in : MissionStatus → List MissionStatus → Bool
mission_in s [] = false
mission_in s (x ∷ xs) = same_mission x s || mission_in s xs

abbrev pub task_in : TaskStatus → List TaskStatus → Bool
task_in s [] = false
task_in s (x ∷ xs) = same_task x s || task_in s xs

pub same_mission_refl : (a : MissionStatus) → same_mission a a ≡ true
same_mission_refl a = (same_mission_iff a a).1 refl

pub same_task_refl : (a : TaskStatus) → same_task a a ≡ true
same_task_refl a = (same_task_iff a a).1 refl

pub same_evidence_refl : (a : EvidenceStatus) → same_evidence a a ≡ true
same_evidence_refl a = (same_evidence_iff a a).1 refl
