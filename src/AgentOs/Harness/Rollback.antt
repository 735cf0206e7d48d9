-- ===== src/AgentOs/Harness/Rollback.antt =====
-- Refinements of services/hermes/agent_os30/harness.py need verified evidence, and can be rolled
-- back.
use agent_os.Prelude.{
  ℕ, ◌≡◌, ◌≢◌, ◌⊎◌, refl, ap, ◌∙◌, inl, inr, Bool, true, false, not, some, List, [], ◌∷◌, ◌++◌,
  length, str_eq, eq_iff, ◌==◌, ==_refl, ◌&&◌, Bool-cases, Option-cases, All, arith,
}
use agent_os.Errors.{Result, ok, err}
use agent_os.AgentOs.Harness.{
  SupplementalItem, ContinualHarness, Snapshot, HistoryEntry, Refinement, allowed_kinds, actions,
  is_one_of, is_empty, find_item, entry, upserted, delete_item, refine, snapshot, take_entries,
  rollback, load_items,
}

abbrev pub is_ok : {A : Type 0} → Result A → Bool
is_ok (ok a) = true
is_ok (err e) = false

-- What `refine` asks for before it writes anything.
unfoldable pub is_granted : Refinement → Bool
is_granted r =
    is_one_of allowed_kinds r.kind
    && (not (is_empty r.evidence_ids) && r.evidence_verified)
    && is_one_of actions r.action

-- What a harness goes through, with the uuid4 that a snapshot draws.
pub data Change : Type 0 where
  refines : Refinement → Change
  takes_snapshot : (sid : ℕ) → Change
  rolls_back : (sid : ℕ) → Change
  loads : List SupplementalItem → Change

abbrev pub change : Change → ContinualHarness → ContinualHarness
change (refines r) h = (refine r h).1
change (takes_snapshot sid) h = snapshot sid h
change (rolls_back sid) h = (rollback sid h).1
change (loads rows) h = load_items rows h

abbrev pub change_all : List Change → ContinualHarness → ContinualHarness
change_all [] h = h
change_all (c ∷ cs) h = change_all cs (change c h)

-- A later uuid4 is another one.
abbrev pub Avoids : (sid : ℕ) → Change → Type 0
Avoids sid (takes_snapshot other) = other ≢ sid
Avoids sid _ = Unit

-- The snapshot and the base prompt are as they were.
abbrev Keeps : (sid : ℕ) → ContinualHarness → ContinualHarness → Type 0
Keeps sid h after = (after.snapshots sid ≡ h.snapshots sid) × (after.base_digest ≡ h.base_digest)

-- How `refine` ends: it raises and changes nothing, or what it asks for holds and the history has
-- one more entry, with the evidence.
abbrev pub Refined :
    Refinement → ContinualHarness → Result SupplementalItem × ContinualHarness → Type 0
Refined r h (result, after) =
    ((is_ok result ≡ false) × (after ≡ h))
    ⊎ ((is_ok result ≡ true)
        × (is_granted r ≡ true)
        × ((e : HistoryEntry) × (e.evidence_ids ≡ r.evidence_ids)
            × (after.history ≡ h.history ++ e ∷ []))
        × (after.snapshots ≡ h.snapshots)
        × (after.base_digest ≡ h.base_digest))

delete_item-Refined :
    (r : Refinement) (h : ContinualHarness) → is_granted r ≡ true → Refined r h (delete_item r h)
delete_item-Refined r h granted = elim (Option-cases (find_item r.item_id h.items)) [
  | inl missing ↦ rw missing (inl (refl, refl))
  | inr (old, found) ↦
      rw found (inr (refl, granted, (entry "delete" old r.evidence_ids, refl, refl), refl, refl))
]

granted_by :
    (r : Refinement)
    → is_one_of allowed_kinds r.kind ≡ true
    → (not (is_empty r.evidence_ids) && r.evidence_verified) ≡ true
    → is_one_of actions r.action ≡ true
    → is_granted r ≡ true
unfolding is_granted
granted_by r kind proven known = rw (kind, proven, known) refl

-- Every call of refine raises and changes nothing, or the kind and the action are allowed, there is
-- evidence and it is verified, and the history grows by one entry with that evidence, while the
-- snapshots and the base prompt stay as they are.
pub refine-Refined : (r : Refinement) (h : ContinualHarness) → Refined r h (refine r h)
unfolding refine
refine-Refined r h = elim (Bool-cases (is_one_of allowed_kinds r.kind)) [
  | inr odd ↦ rw odd (inl (refl, refl))
  | inl kind ↦ elim (Bool-cases (not (is_empty r.evidence_ids) && r.evidence_verified)) [
    | inr unproven ↦ rw (kind, unproven) (inl (refl, refl))
    | inl proven ↦ elim (Bool-cases (is_one_of actions r.action)) [
      | inr unknown ↦ rw (kind, proven, unknown) (inl (refl, refl))
      | inl known ↦
          let granted : is_granted r ≡ true = granted_by r kind proven known in
          elim (Bool-cases (str_eq r.action "delete")) [
            | inl delete ↦ rw (kind, proven, known, delete) (delete_item-Refined r h granted)
            | inr upsert ↦
                rw (kind, proven, known, upsert)
                  (inr (
                    refl,
                    granted,
                    (
                      entry "upsert" (upserted r (find_item r.item_id h.items)) r.evidence_ids,
                      refl,
                      refl,
                    ),
                    refl,
                    refl,
                  ))
          ]
    ]
  ]
]

rollback_keeps :
    (other : ℕ) (h : ContinualHarness)
    → ((rollback other h).1.snapshots ≡ h.snapshots)
      × ((rollback other h).1.base_digest ≡ h.base_digest)
unfolding rollback
rollback_keeps other h = elim (Option-cases (h.snapshots other)) [
  | inl missing ↦ rw missing (refl, refl)
  | inr (s, found) ↦ elim (Bool-cases (str_eq s.base_digest h.base_digest)) [
    | inl same ↦ rw (found, same) (refl, refl)
    | inr changed ↦ rw (found, changed) (refl, refl)
  ]
]

module _ (sid : ℕ) where
  change-Keeps : (c : Change) (h : ContinualHarness) → Avoids sid c → Keeps sid h (change c h)
  unfolding snapshot load_items
  change-Keeps (refines r) h apart = elim (refine-Refined r h) [
    | inl (raised, same) ↦ (ap (λ h. h.snapshots sid) same, ap (λ h. h.base_digest) same)
    | inr (done, granted, noted, snapshots, base) ↦ (ap (λ f. f sid) snapshots, base)
  ]
  change-Keeps (takes_snapshot other) h apart =
      let own : (sid == other) ≡ false = ground arith in (rw own refl, refl)
  change-Keeps (rolls_back other) h apart =
      let (snapshots, base) = rollback_keeps other h in (ap (λ f. f sid) snapshots, base)
  change-Keeps (loads rows) h apart = (refl, refl)

  change_all-Keeps :
      (cs : List Change) (h : ContinualHarness)
      → All (Avoids sid) cs
      → Keeps sid h (change_all cs h)
  change_all-Keeps [] h apart = (refl, refl)
  change_all-Keeps (c ∷ cs) h (first, later) =
      let (snapshots, base) = change_all-Keeps cs (change c h) later in
      let (same, digest) = change-Keeps c h first in (snapshots ∙ same, base ∙ digest)

take_entries-length : (es : List HistoryEntry) → take_entries (length es) es ≡ es
unfolding take_entries
take_entries-length [] = refl
take_entries-length (e ∷ es) = ap (λ rest. e ∷ rest) (take_entries-length es)

-- Whatever is refined, loaded, snapshotted under other ids or rolled back after a snapshot, to roll
-- back to that snapshot returns, and the items and the history are those of the snapshot again.
pub rollback_restores :
    (sid : ℕ) (cs : List Change) (h : ContinualHarness)
    → All (Avoids sid) cs
    → (let (result, after) = rollback sid (change_all cs (snapshot sid h)) in
        (result ≡ ok tt) × (after.items ≡ h.items) × (after.history ≡ h.history))
unfolding rollback snapshot
rollback_restores sid cs h apart =
    let (kept, base) = change_all-Keeps sid cs (snapshot sid h) apart in
    let taken : Snapshot = record {
      base_digest = h.base_digest;
      items = h.items;
      history = h.history;
      history_len = length h.history;
    } in
    let there : (change_all cs (snapshot sid h)).snapshots sid ≡ some taken =
      kept ∙ rw (==_refl sid) refl in
    rw (there, base, (eq_iff h.base_digest h.base_digest).1 refl)
      (refl, refl, take_entries-length h.history)
