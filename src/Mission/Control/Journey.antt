-- ===== src/Mission/Control/Journey.antt =====
-- The statuses that no mission can skip, read off ALLOWED_TRANSITIONS.
use agent_os.Prelude.{ℕ, ◌≡◌, subst, ◌⊎◌, inl, inr, Bool, true, false, some, List, [], ◌∷◌, arith}
use agent_os.Prelude.Chains.{done, link}
use agent_os.Mission.Tables.{Mission}
use agent_os.Mission.Tables.Status.{
  MissionStatus, created, analyzing, planning, executing, verifying, blocked, completed, failed,
  cancelled, same_mission, mission_in, retrying, waiting_approval,
}
use agent_os.Mission.Control.{may_transition}
use agent_os.Mission.Control.Transitions.{mission_row}
use agent_os.Mission.Control.Interleaving.{System, Steps, IsSound, Transitions, mission_advances}

abbrev pub is_milestone : MissionStatus → Bool
is_milestone analyzing = true
is_milestone executing = true
is_milestone verifying = true
is_milestone _ = false

-- The statuses that a new mission can have before it has been in `x`.
before : MissionStatus → List MissionStatus
before analyzing = created ∷ cancelled ∷ []
before executing = created ∷ analyzing ∷ planning ∷ blocked ∷ failed ∷ cancelled ∷ []
before verifying =
    created ∷ analyzing ∷ planning ∷ executing ∷ blocked ∷ retrying ∷ waiting_approval ∷ failed
    ∷ cancelled ∷ []
before _ = []

before_step :
    (x b c : MissionStatus)
    → is_milestone x ≡ true
    → mission_in b (before x) ≡ true
    → may_transition b c ≡ true
    → (mission_in c (before x) ≡ true) ⊎ (c ≡ x)
unfolding before may_transition
before_step analyzing b c m h allowed = ground arith
before_step executing b c m h allowed = ground arith
before_step verifying b c m h allowed = ground arith
before_step _ b c m h allowed = cc

created_before : (x : MissionStatus) → is_milestone x ≡ true → mission_in created (before x) ≡ true
unfolding before same_mission
created_before x m = ground arith

completed_after : (x : MissionStatus) → mission_in completed (before x) ≡ false
unfolding before same_mission
completed_after x = ground arith

Transitions-cases :
    {a b : MissionStatus} (x : MissionStatus)
    → is_milestone x ≡ true
    → mission_in a (before x) ≡ true
    → Transitions a b
    → (mission_in b (before x) ≡ true) ⊎ (Transitions a x × Transitions x b)
Transitions-cases x m h done = inl h
Transitions-cases {a} x m h (link {b} {c} k allowed) = elim (Transitions-cases x m h k) [
  | inl early ↦ elim (before_step x b c m early allowed) [
    | inl still ↦ inl still
    | inr now ↦
        let whole : Transitions a c = link k allowed in
        inr (subst (λ y. Transitions a y) now whole, subst (λ y. Transitions y c) now done)
  ]
  | inr (to, from) ↦ inr (to, link from allowed)
]

-- A mission that was CREATED and is COMPLETED later, under any interleaving of orchestrators, got
-- there through ANALYZING, EXECUTING and VERIFYING: for each of these there are allowed
-- transitions from CREATED to it, and from it to COMPLETED.
pub completed_through :
    {s t : System} (j : ℕ) (m m' : Mission) (x : MissionStatus)
    → Steps s t
    → IsSound s
    → mission_row j s.db ≡ some m
    → m.status ≡ created
    → mission_row j t.db ≡ some m'
    → m'.status ≡ completed
    → is_milestone x ≡ true
    → Transitions created x × Transitions x completed
completed_through j m m' x r v row start row' end milestone =
    let (m1, row1, chain) = mission_advances j m r v row in
    let last : m1.status ≡ completed = cc in
    let whole : Transitions created completed =
      subst (λ y. Transitions y completed) start (subst (λ y. Transitions m.status y) last chain) in
    elim (Transitions-cases x milestone (created_before x milestone) whole) [
      | inl early ↦ absurd (grind (arith, completed_after x))
      | inr both ↦ both
    ]
