-- ===== src/AgentOs/Trajectory/Chain.antt =====
-- What the hash chain of services/hermes/agent_os30/trajectory.py shows of a trajectory.
use agent_os.Prelude.{
  ℕ, String, ◌≡◌, ◌≢◌, ==_refl, refl, sym, ap, ◌∙◌, inl, inr, true, false, some, List, [], ◌∷◌,
  ◌++◌, All, length, str_eq, eq_iff, Bool-cases, Option-cases, arith,
}
use agent_os.AgentOs.Trajectory.{
  EventBody, TrajectoryEvent, Recorder, Entry, last_hash, event_of, record_event, record_durable,
  verify_from, verify_chain, load_trajectory, restore,
}

module _ (digest : EventBody → String) where
  -- What a verified chain is: each event points to the one before and carries its own digest.
  abbrev pub Linked : String → List TrajectoryEvent → Type 0
  Linked prev [] = Unit
  Linked prev (e ∷ es) = (e.body.prev_hash ≡ prev) × (digest e.body ≡ e.hash) × Linked e.hash es

  verify_from-Linked :
      (prev : String) (es : List TrajectoryEvent)
      → verify_from digest prev es ≡ true
      → Linked prev es
  unfolding verify_from
  verify_from-Linked prev [] h = tt
  verify_from-Linked prev (e ∷ es) h = elim (Bool-cases (str_eq e.body.prev_hash prev)) [
    | inl points ↦ elim (Bool-cases (str_eq (digest e.body) e.hash)) [
      | inl own ↦ (
        (eq_iff e.body.prev_hash prev).0 points,
        (eq_iff (digest e.body) e.hash).0 own,
        verify_from-Linked e.hash es (ground arith),
      )
      | inr other ↦ let bad : ⊥ = ground arith in elim bad [ ]
    ]
    | inr lost ↦ let bad : ⊥ = ground arith in elim bad [ ]
  ]

  Linked-verify_from :
      (prev : String) (es : List TrajectoryEvent)
      → Linked prev es
      → verify_from digest prev es ≡ true
  unfolding verify_from
  Linked-verify_from prev [] h = refl
  Linked-verify_from prev (e ∷ es) (points, own, rest) =
      rw ((eq_iff e.body.prev_hash prev).1 points, (eq_iff (digest e.body) e.hash).1 own)
        (Linked-verify_from e.hash es rest)

  Linked-append :
      (prev : String) (es : List TrajectoryEvent) (e : TrajectoryEvent)
      → Linked prev es
      → e.body.prev_hash ≡ last_hash prev es
      → digest e.body ≡ e.hash
      → Linked prev (es ++ e ∷ [])
  Linked-append prev [] e linked points own = (points, own, tt)
  Linked-append prev (f ∷ es) e (back, right, rest) points own =
      (back, right, Linked-append f.hash es e rest points own)

  -- Calls of record_durable one after another, each with the database's time.
  abbrev pub record_all : List (ℕ × Entry) → Recorder → Recorder
  record_all [] recorder = recorder
  record_all ((created_at, entry) ∷ entries) recorder =
      record_all entries (record_durable digest created_at entry recorder).1

  record_durable-events :
      (created_at : ℕ) (entry : Entry) (recorder : Recorder)
      → (record_durable digest created_at entry recorder).1.events
        ≡ recorder.events ++ event_of digest entry (last_hash "GENESIS" recorder.events) ∷ []
  unfolding record_durable record_event
  record_durable-events created_at entry recorder = elim (Option-cases recorder.table) [
    | inl closed ↦ rw closed refl
    | inr (table, stored) ↦ rw stored refl
  ]

  -- Whatever is recorded, durably or not, a recorder whose chain verifies keeps a chain that
  -- verifies.
  pub recorded_chain_verifies :
      (entries : List (ℕ × Entry)) (recorder : Recorder)
      → verify_chain digest recorder.events ≡ true
      → verify_chain digest (record_all entries recorder).events ≡ true
  recorded_chain_verifies [] recorder h = h
  recorded_chain_verifies ((created_at, entry) ∷ entries) recorder h =
      recorded_chain_verifies entries (record_durable digest created_at entry recorder).1 (
        rw (record_durable-events created_at entry recorder) (
          Linked-verify_from "GENESIS" _ (
            Linked-append "GENESIS" recorder.events
              (event_of digest entry (last_hash "GENESIS" recorder.events))
              (verify_from-Linked "GENESIS" recorder.events h) refl refl)))

  -- No two different bodies of the two trajectories have one digest.
  abbrev pub CollisionFree : List TrajectoryEvent → List TrajectoryEvent → Type 0
  CollisionFree es fs = All (λ e. All (λ f. digest e.body ≡ digest f.body → e.body ≡ f.body) fs) es

  All-later :
      (e : TrajectoryEvent) (es : List TrajectoryEvent) (f : TrajectoryEvent)
      (fs : List TrajectoryEvent)
      → CollisionFree (e ∷ es) (f ∷ fs)
      → CollisionFree es fs
  All-later e [] f fs free = tt
  All-later e (d ∷ es) f fs (here, more) = (more.0.1, All-later e es f fs (here, more.1))

  abbrev sealed : EventBody → String → TrajectoryEvent
  sealed body hash = record { body = body; hash = hash }

  same_chain :
      (p q : String) (es fs : List TrajectoryEvent)
      → Linked p es
      → Linked q fs
      → length es ≡ length fs
      → last_hash p es ≡ last_hash q fs
      → CollisionFree es fs
      → (p ≡ q) × (es ≡ fs)
  same_chain p q [] [] linked chained same last free = (last, refl)
  same_chain p q [] (f ∷ fs) linked chained same last free =
      let bad : ⊥ = omega arith in elim bad [ ]
  same_chain p q (e ∷ es) [] linked chained same last free =
      let bad : ⊥ = omega arith in elim bad [ ]
  same_chain p q (e ∷ es) (f ∷ fs) (points, own, linked) (back, right, chained) same last free =
      let (hashes, rest) =
        same_chain e.hash f.hash es fs linked chained (omega arith) last
          (All-later e es f fs free) in
      let bodies : e.body ≡ f.body = free.0.0 (own ∙ hashes ∙ sym right) in
      (
        sym points ∙ ap (λ b. b.prev_hash) bodies ∙ back,
        ap (λ x. x ∷ es) (ap (λ b. sealed b e.hash) bodies ∙ ap (sealed f.body) hashes)
            ∙ ap (λ xs. f ∷ xs) rest,
      )

  -- Two trajectories of one length that both verify and end in the same hash are equal, unless two
  -- different events of them have one digest: what was recorded before a known hash cannot be
  -- changed.
  pub last_hash_fixes_chain :
      (es fs : List TrajectoryEvent)
      → verify_chain digest es ≡ true
      → verify_chain digest fs ≡ true
      → length es ≡ length fs
      → last_hash "GENESIS" es ≡ last_hash "GENESIS" fs
      → CollisionFree es fs
      → es ≡ fs
  last_hash_fixes_chain es fs verified checked same last free =
      (same_chain "GENESIS" "GENESIS" es fs (verify_from-Linked "GENESIS" es verified)
        (verify_from-Linked "GENESIS" fs checked) same last free).1

  -- A new recorder that restores the only event of a mission from the table does not verify it,
  -- when the digest tells the time of the INSERT from the time of the event: the table keeps the
  -- hash but not the timestamp that the hash covers.
  pub restored_chain_fails :
      (created_at : ℕ) (entry : Entry)
      → (let e = event_of digest entry "GENESIS" in
          let after =
            (record_durable digest created_at entry (record { events = []; table = some [] })).1 in
          digest (record e.body { timestamp = created_at }) ≢ digest e.body
          → verify_chain digest
              (restore entry.mission_id (record { events = []; table = after.table })).0
            ≡ false)
  unfolding record_durable record_event restore load_trajectory verify_from
  restored_chain_fails created_at entry differs =
      let e = event_of digest entry "GENESIS" in
      let changed : EventBody = record e.body { timestamp = created_at } in
      elim (Bool-cases (str_eq (digest changed) e.hash)) [
        | inl same ↦ elim (differs ((eq_iff (digest changed) e.hash).0 same)) [ ]
        | inr other ↦ rw (==_refl entry.mission_id, other) refl
      ]
