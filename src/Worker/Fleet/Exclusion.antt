-- ===== src/Worker/Fleet/Exclusion.antt =====
-- No two workers handle a task at once while its lock does not expire.
use agent_os.Prelude.{
  ℕ, String, ◌≡◌, refl, ◌≢◌, ◌⊎◌, sym, subst, true, false, List, [], ◌∷◌, inl, inr, ◌==◌, ==_iff,
  ==_refl, Bool-cases, Option-cases, arith, ◌∙◌,
}
use agent_os.Redis.{Redis, put}
use agent_os.Worker.{
  exists, holds_lock, already_processed, lock, settle_task, delete_lock, HandleOutcome, begun,
  start_task, store_result,
}
use agent_os.Worker.Settling.{settle_task-Ends}
use agent_os.Worker.Fleet.{
  Phase, idle, checked, claimed, working, stored, deleting, Fleet, Move, checks, claims, starts,
  finishes, compares, deletes, crashes, at, writes, check_in, claim_in, start_in, finish_in,
  compare_in, delete_in, move, moves, holds, handles,
}

-- Whoever holds a task holds its lock, and holds it alone.
abbrev pub IsExclusive : Fleet → Type 0
IsExclusive s =
    ((w j : ℕ) → holds (s.phases w) j ≡ true → exists (s.redis.locks j) ≡ true)
    × ((v w j : ℕ) → holds (s.phases v) j ≡ true → holds (s.phases w) j ≡ true → v ≡ w)

-- Who holds a task after the phase of the worker w is set.
put-holds :
    (w v j : ℕ) (phase : Phase) (phases : ℕ → Phase)
    → holds (put w phase phases v) j ≡ true
    → ((v ≡ w) × (holds phase j ≡ true)) ⊎ ((v ≢ w) × (holds (phases v) j ≡ true))
put-holds w v j phase phases = elim (Bool-cases (v == w)) [
  | inl same ↦ rw same (λ h. inl ((==_iff v w).0 same, h))
  | inr other ↦ rw other (λ h. inr (λ e. ground arith, h))
]

-- A worker that takes hold of nothing new, and touches no lock.
kept-IsExclusive :
    (w : ℕ) (phase : Phase) (redis : Redis) (s : Fleet)
    → redis.locks ≡ s.redis.locks
    → ((j : ℕ) → holds phase j ≡ true → holds (s.phases w) j ≡ true)
    → IsExclusive s
    → IsExclusive (record { redis = redis; phases = put w phase s.phases })
kept-IsExclusive w phase redis s locks less (locked, alone) = (
  λ v j h. subst (λ f. exists (f j) ≡ true) (sym locks) (locked v j (before v j h)),
  λ u v j h k. alone u v j (before u j h) (before v j k),
)
  where
    before : (v j : ℕ) → holds (put w phase s.phases v) j ≡ true → holds (s.phases v) j ≡ true
    before v j h = elim (put-holds w v j phase s.phases h) [
      | inl (own, now) ↦ subst (λ x. holds (s.phases x) j ≡ true) (sym own) (less j now)
      | inr (alien, held) ↦ held
    ]

-- A worker that sets a lock that was free.
claimed-IsExclusive :
    (w id token : ℕ) (s : Fleet)
    → exists (s.redis.locks id) ≡ false
    → IsExclusive s
    → IsExclusive
        (record { redis = lock id token s.redis; phases = put w (claimed id token) s.phases })
claimed-IsExclusive w id token s free (locked, alone) = (
  λ v j h. elim (put-holds w v j (claimed id token) s.phases h) [
    | inl (own, now) ↦ rw ((==_iff j id).1 (sym ((==_iff id j).0 now))) refl
    | inr (alien, before) ↦ elim (Bool-cases (j == id)) [
      | inl same ↦ rw same refl
      | inr other ↦ rw other (locked v j before)
    ]
  ],
  λ u v j h k. elim (put-holds w u j (claimed id token) s.phases h) [
    | inl (own, now) ↦ elim (put-holds w v j (claimed id token) s.phases k) [
      | inl (mine, too) ↦ own ∙ sym mine
      | inr (alien, before) ↦ taken j (locked v j before) now
    ]
    | inr (alien, before) ↦ elim (put-holds w v j (claimed id token) s.phases k) [
      | inl (mine, too) ↦ taken j (locked u j before) too
      | inr (other, held) ↦ alone u v j before held
    ]
  ],
)
  where
    taken : {a b : ℕ} (j : ℕ) → exists (s.redis.locks j) ≡ true → (id == j) ≡ true → a ≡ b
    taken j held same =
        let here : exists (s.redis.locks id) ≡ true =
          subst (λ x. exists (s.redis.locks x) ≡ true) (sym ((==_iff id j).0 same)) held in
        cc

-- A worker that deletes the lock of the task it holds.
deleted-IsExclusive :
    (w id : ℕ) (s : Fleet)
    → holds (s.phases w) id ≡ true
    → IsExclusive s
    → IsExclusive (record { redis = delete_lock id s.redis; phases = put w idle s.phases })
deleted-IsExclusive w id s own (locked, alone) = (
  λ v j h. elim (put-holds w v j idle s.phases h) [
    | inl (same, now) ↦ cc
    | inr (alien, before) ↦ elim (Bool-cases (j == id)) [
      | inl same ↦
          let mine : holds (s.phases w) j ≡ true =
            subst (λ x. holds (s.phases w) x ≡ true) (sym ((==_iff j id).0 same)) own in
          elim (alien (alone v w j before mine)) [ ]
      | inr other ↦ rw other (locked v j before)
    ]
  ],
  λ u v j h k. elim (put-holds w u j idle s.phases h) [
    | inl (same, now) ↦ cc
    | inr (alien, before) ↦ elim (put-holds w v j idle s.phases k) [
      | inl (same, now) ↦ cc
      | inr (other, held) ↦ alone u v j before held
    ]
  ],
)

module _ (worker_type : String) (worker_id : ℕ → String) where
  -- A phase that holds nothing, set for w.
  idle-IsExclusive :
      (w : ℕ) (phase : Phase) (s : Fleet)
      → ((j : ℕ) → holds phase j ≡ false)
      → IsExclusive s
      → IsExclusive (at worker_type worker_id w phase s)
  idle-IsExclusive w phase s none_held =
      kept-IsExclusive w phase s.redis s refl (λ j h. let e = none_held j in cc)

  -- The same worker goes on with the task it holds.
  goes_on :
      (w : ℕ) (phase before : Phase) (redis : Redis) (s : Fleet)
      → s.phases w ≡ before
      → redis.locks ≡ s.redis.locks
      → ((j : ℕ) → holds phase j ≡ true → holds before j ≡ true)
      → IsExclusive s
      → IsExclusive (writes worker_type worker_id w phase redis s)
  goes_on w phase before redis s was locks less =
      kept-IsExclusive w phase redis s locks
        (λ j h. subst (λ p. holds p j ≡ true) (sym was) (less j h))

  check_in-IsExclusive :
      (w id : ℕ) (p : Phase) (s : Fleet)
      → IsExclusive s
      → IsExclusive (check_in worker_type worker_id w id p s)
  check_in-IsExclusive w id idle s inv = elim (Bool-cases (already_processed id s.redis)) [
    | inl over ↦ rw over inv
    | inr fresh ↦ rw fresh (idle-IsExclusive w (checked id) s (λ j. refl) inv)
  ]
  check_in-IsExclusive w id _ s inv = inv

  claim_in-IsExclusive :
      (w token : ℕ) (p : Phase) (s : Fleet)
      → IsExclusive s
      → IsExclusive (claim_in worker_type worker_id w token p s)
  claim_in-IsExclusive w token (checked id) s inv = elim (Bool-cases (exists (s.redis.locks id))) [
    | inl held ↦ rw held (idle-IsExclusive w idle s (λ j. refl) inv)
    | inr free ↦ rw free (claimed-IsExclusive w id token s free inv)
  ]
  claim_in-IsExclusive w token _ s inv = inv

  start_in-IsExclusive :
      (w now : ℕ) (p : Phase) (s : Fleet)
      → s.phases w ≡ p
      → IsExclusive s
      → IsExclusive (start_in worker_type worker_id w now p s)
  start_in-IsExclusive w now (claimed id token) s was inv = elim (Option-cases (s.redis.tasks id)) [
    | inl missing ↦ rw missing (idle-IsExclusive w idle s (λ j. refl) inv)
    | inr (task, found) ↦ rw found (
        goes_on w (working id token (begun worker_type (worker_id w) now task)) (claimed id token)
          (start_task worker_type (worker_id w) id now task s.redis) s was refl (λ j h. h) inv)
  ]
  start_in-IsExclusive w now _ s was inv = inv

  finish_in-IsExclusive :
      (w now : ℕ) (outcome : HandleOutcome) (p : Phase) (s : Fleet)
      → s.phases w ≡ p
      → IsExclusive s
      → IsExclusive (finish_in worker_type worker_id w now outcome p s)
  finish_in-IsExclusive w now outcome (working id token task) s was inv =
      let (same_id, locks, processing, how) = settle_task-Ends worker_type task outcome s.redis in
      let (after, settled) = settle_task worker_type task outcome s.redis in
      goes_on w (stored id token) (working id token task) (store_result id now after settled) s was
        locks (λ j h. h) inv
  finish_in-IsExclusive w now outcome _ s was inv = inv

  compare_in-IsExclusive :
      (w : ℕ) (p : Phase) (s : Fleet)
      → s.phases w ≡ p
      → IsExclusive s
      → IsExclusive (compare_in worker_type worker_id w p s)
  compare_in-IsExclusive w (stored id token) s was inv =
      elim (Bool-cases (holds_lock id token s.redis)) [
        | inl own ↦
            rw own (goes_on w (deleting id) (stored id token) s.redis s was refl (λ j h. h) inv)
        | inr alien ↦ rw alien (idle-IsExclusive w idle s (λ j. refl) inv)
      ]
  compare_in-IsExclusive w _ s was inv = inv

  delete_in-IsExclusive :
      (w : ℕ) (p : Phase) (s : Fleet)
      → s.phases w ≡ p
      → IsExclusive s
      → IsExclusive (delete_in worker_type worker_id w p s)
  delete_in-IsExclusive w (deleting id) s was inv =
      deleted-IsExclusive w id s (rw (was, ==_refl id) refl) inv
  delete_in-IsExclusive w _ s was inv = inv

  move-IsExclusive :
      (m : Move) (s : Fleet) → IsExclusive s → IsExclusive (move worker_type worker_id m s)
  move-IsExclusive (checks w id) s inv = check_in-IsExclusive w id (s.phases w) s inv
  move-IsExclusive (claims w token) s inv = claim_in-IsExclusive w token (s.phases w) s inv
  move-IsExclusive (starts w now) s inv = start_in-IsExclusive w now (s.phases w) s refl inv
  move-IsExclusive (finishes w now outcome) s inv =
      finish_in-IsExclusive w now outcome (s.phases w) s refl inv
  move-IsExclusive (compares w) s inv = compare_in-IsExclusive w (s.phases w) s refl inv
  move-IsExclusive (deletes w) s inv = delete_in-IsExclusive w (s.phases w) s refl inv
  move-IsExclusive (crashes w) s inv = idle-IsExclusive w idle s (λ j. refl) inv

  moves-IsExclusive :
      (ms : List Move) (s : Fleet) → IsExclusive s → IsExclusive (moves worker_type worker_id ms s)
  unfolding moves
  moves-IsExclusive [] s inv = inv
  moves-IsExclusive (m ∷ ms) s inv =
      moves-IsExclusive ms (move worker_type worker_id m s) (move-IsExclusive m s inv)

  handles-holds : (p : Phase) (j : ℕ) → handles p j ≡ true → holds p j ≡ true
  handles-holds (working id token task) j h = h
  handles-holds _ j h = cc

  -- From any state in which no worker is inside `process`, however the commands of any number of
  -- workers and their crashes interleave while no lock expires, two workers that handle the same
  -- task are the same worker.
  pub handled_by_one :
      (ms : List Move) (redis : Redis) (v w j : ℕ)
      → (let after =
            moves worker_type worker_id ms (record { redis = redis; phases = λ w. idle }) in
          handles (after.phases v) j ≡ true → handles (after.phases w) j ≡ true → v ≡ w)
  handled_by_one ms redis v w j h k =
      let (locked, alone) =
        moves-IsExclusive ms (record { redis = redis; phases = λ w. idle })
          ((λ w j h. cc), (λ v w j h k. cc)) in
      alone v w j (handles-holds _ j h) (handles-holds _ j k)
