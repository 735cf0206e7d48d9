-- ===== src/Consumer/Once.antt =====
-- How often services/hermes/result_consumer.py hands a task to its handler when commands are lost or
-- Hermes stops, and what becomes of a result whose handler raises.
use agent_os.Prelude.{
  ℕ, ◌≡◌, refl, ap, sym, subst, ◌∙◌, ◌⊎◌, inl, inr, Bool, true, false, none, some, List, [], ◌∷◌,
  ◌==◌, ==_iff, if◌then◌else◌, ◌+◌, ◌≤◌, Bool-cases, Option-cases, In, arith,
}
use agent_os.Errors.{Result, ok, err}
use agent_os.Exec.{Exec}
use agent_os.Redis.{Redis, rpop}
use agent_os.Worker.{has_status}
use agent_os.Worker.Retries as Work
use agent_os.Worker.Markers.{step-consumed}
use agent_os.Consumer.{
  Consumed, handled, unmarked, unacknowledged, raised, Mishap, nothing_lost, at_marker,
  at_acknowledgement, mark, drop_duplicate, take_result, after_handler, consume, consume_taken,
  consume_once, has_ended, recover_one, recover_all, recover,
}

-- What Hermes and the workers do while no marker expires; a call of consume_once comes with what goes
-- wrong after the handler.
pub data Step : Type 0 where
  consumes : Mishap → Step
  recovers : Step
  works : Work.Step → Step

abbrev pub named : ℕ → ℕ → ℕ
named j id = if id == j then 1 else 0

-- Did the handler return for the task j?
abbrev pub counted : ℕ → Consumed → ℕ
counted j (handled id) = named j id
counted j (unmarked id) = named j id
counted j (unacknowledged id) = named j id
counted j _ = 0

-- Was the marker of j lost after that?
abbrev pub lost : ℕ → Consumed → ℕ
lost j (unmarked id) = named j id
lost j _ = 0

module _ (handler : ℕ → Exec Redis (Unit {0})) (weigh : Consumed → ℕ) where
  abbrev pub times : List Step → Redis → ℕ
  times [] r = 0
  times (consumes mishap ∷ steps) r =
      let (how, after) = consume_once handler mishap r in
      let rest = times steps after in weigh how + rest
  times (recovers ∷ steps) r = times steps (recover r)
  times (works s ∷ steps) r = times steps (Work.step s r)

-- The calls of the handler with the task j that return, and those of them after which the marker was
-- not set.
abbrev pub handled_times : (handler : ℕ → Exec Redis (Unit {0})) → (j : ℕ) → List Step → Redis → ℕ
handled_times handler j = times handler (counted j)

abbrev pub lost_times : (handler : ℕ → Exec Redis (Unit {0})) → (j : ℕ) → List Step → Redis → ℕ
lost_times handler j = times handler (lost j)

-- Only the consumer sets result-consumed:<id>.
abbrev pub KeepsMarkers : (ℕ → Exec Redis (Unit {0})) → Type 0
KeepsMarkers handler = (id : ℕ) (r : Redis) → (handler id r).1.consumed ≡ r.consumed

-- The calls that a marker leaves room for.
abbrev room : Bool → ℕ
room true = 0
room false = 1

room-small : (b : Bool) → room b ≤ 1
room-small true = omega arith
room-small false = omega arith

recover_all-consumed : (ids : List ℕ) (r : Redis) → (recover_all ids r).consumed ≡ r.consumed
unfolding recover_all
recover_all-consumed [] r = refl
recover_all-consumed (id ∷ ids) r = recover_all-consumed ids (recover_one id r)

abbrev delivered : (id : ℕ) (rest : List ℕ) → Redis → Redis
delivered id rest r = record r { results = rest; results_processing = id ∷ r.results_processing }

take_cases :
    (r : Redis)
    → (take_result r ≡ none)
      ⊎ ((id : ℕ) × (rest : List ℕ) × (take_result r ≡ some (id, delivered id rest r)))
unfolding take_result
take_cases r = elim (Option-cases (rpop r.results)) [
  | inl empty_list ↦ inl (rw (empty_list, take_result) refl)
  | inr ((id, rest), found) ↦ inr (id, rest, rw (found, take_result) refl)
]

module _ (handler : ℕ → Exec Redis (Unit {0})) (minds : KeepsMarkers handler) (j : ℕ) where
  abbrev Bounded : Redis → Consumed × Redis → Type 0
  Bounded r (how, after) =
      counted j how + room (after.consumed j) ≤ lost j how + room (r.consumed j)

  marked-room :
      (id : ℕ) (r after : Redis)
      → r.consumed id ≡ false
      → after.consumed ≡ r.consumed
      → named j id + room ((mark id after).consumed j) ≤ room (r.consumed j)
  marked-room id r after fresh same = elim (Bool-cases (j == id)) [
    | inl own ↦
        let e : j ≡ id = (==_iff j id).0 own in
        let mine : r.consumed j ≡ false = rw e fresh in rw (own, mine) (ground arith)
    | inr other ↦ rw (other, same) (ground (arith, ==_iff id j, ==_iff j id))
  ]

  after_handler-Bounded :
      (id : ℕ) (mishap : Mishap) (r : Redis) (result : Result (Unit {0})) (after : Redis)
      → r.consumed id ≡ false
      → after.consumed ≡ r.consumed
      → Bounded r (after_handler id mishap (result, after))
  after_handler-Bounded id mishap r (err e) after fresh same = rw same (omega arith)
  after_handler-Bounded id nothing_lost r (ok done) after fresh same =
      omega (arith, marked-room id r after fresh same)
  after_handler-Bounded id at_acknowledgement r (ok done) after fresh same =
      omega (arith, marked-room id r after fresh same)
  after_handler-Bounded id at_marker r (ok done) after fresh same = rw same (omega arith)

  drop_duplicate-Bounded :
      (id : ℕ) (mishap : Mishap) (r taken : Redis)
      → taken.consumed ≡ r.consumed
      → Bounded r (drop_duplicate id mishap taken)
  drop_duplicate-Bounded id nothing_lost r taken same = rw same (omega arith)
  drop_duplicate-Bounded id at_marker r taken same = rw same (omega arith)
  drop_duplicate-Bounded id at_acknowledgement r taken same = rw same (omega arith)

  consume-Bounded :
      (id : ℕ) (mishap : Mishap) (r taken : Redis)
      → taken.consumed ≡ r.consumed
      → Bounded r (consume handler id mishap taken)
  consume-Bounded id mishap r taken same = elim (Bool-cases (taken.consumed id)) [
    | inl marked ↦ rw marked (drop_duplicate-Bounded id mishap r taken same)
    | inr fresh ↦
        let (result, after) = handler id taken in
        rw fresh (
          after_handler-Bounded id mishap r result after (subst (λ f. f id ≡ false) same fresh)
            (minds id taken ∙ same))
  ]

  consume_once-Bounded : (mishap : Mishap) (r : Redis) → Bounded r (consume_once handler mishap r)
  unfolding consume_once
  consume_once-Bounded mishap r = elim (take_cases r) [
    | inl none_left ↦
        subst (λ o. Bounded r (consume_taken handler o mishap r)) (sym none_left) (omega arith)
    | inr (id, rest, found) ↦
        subst (λ o. Bounded r (consume_taken handler o mishap r)) (sym found)
          (consume-Bounded id mishap r (delivered id rest r) refl)
  ]

  handled_times-room :
      (steps : List Step) (r : Redis)
      → handled_times handler j steps r ≤ lost_times handler j steps r + room (r.consumed j)
  unfolding recover
  handled_times-room [] r = omega arith
  handled_times-room (consumes mishap ∷ steps) r = omega (
    arith,
    consume_once-Bounded mishap r,
    handled_times-room steps (consume_once handler mishap r).1,
  )
  handled_times-room (recovers ∷ steps) r =
      let same = ap (λ f. room (f j)) (recover_all-consumed r.results_processing r) in
      omega (arith, handled_times-room steps (recover r), same)
  handled_times-room (works s ∷ steps) r =
      let same = ap (λ f. room (f j)) (step-consumed s r) in
      omega (arith, handled_times-room steps (Work.step s r), same)

-- While no marker expires, and if nobody but the consumer sets markers: however Hermes consumes and
-- recovers results, stops in between or loses a command, and the workers run, retry and push them
-- again, at most one call of the handler with one task id returns, and one more for each call after
-- which the SET of the marker raised or was not reached; if the id is marked at first, there is no
-- such one.
pub handled_once :
    (handler : ℕ → Exec Redis (Unit {0})) (minds : KeepsMarkers handler) (j : ℕ) (steps : List Step)
    (r : Redis)
    → (handled_times handler j steps r ≤ lost_times handler j steps r + 1)
      × (r.consumed j ≡ true → handled_times handler j steps r ≤ lost_times handler j steps r)
handled_once handler minds j steps r =
    let bound = handled_times-room handler minds j steps r in
    let few : room (r.consumed j) ≤ 1 = room-small (r.consumed j) in
    (
      omega (arith, bound, few),
      λ marked. let none_left = ap room marked in omega (arith, bound, none_left),
    )

recover_all-In :
    (j : ℕ) (ids : List ℕ) (r : Redis) → In j r.results → In j (recover_all ids r).results
unfolding recover_all
recover_all-In j [] r here = here
recover_all-In j (id ∷ ids) r here =
    recover_all-In j ids (recover_one id r) (elim (Bool-cases (has_status has_ended (r.tasks id))) [
      | inl over ↦ rw over (inr here)
      | inr open_task ↦ rw open_task here
    ])

recover_all-returns :
    (j : ℕ) (ids : List ℕ) (r : Redis)
    → In j ids
    → has_status has_ended (r.tasks j) ≡ true
    → In j (recover_all ids r).results
unfolding recover_all
recover_all-returns j [] r nowhere ended = elim nowhere [ ]
recover_all-returns j (id ∷ ids) r (inl same) ended = recover_all-In j ids (recover_one id r) (
    let over : has_status has_ended (r.tasks id) ≡ true =
      subst (λ x. has_status has_ended (r.tasks x) ≡ true) (sym same) ended in
    rw over (inl same))
recover_all-returns j (id ∷ ids) r (inr later) ended =
    recover_all-returns j ids (recover_one id r) later ended

-- A handler that leaves the results in flight alone.
abbrev pub KeepsFlight : (ℕ → Exec Redis (Unit {0})) → Type 0
KeepsFlight handler =
    (id : ℕ) (r : Redis) → (handler id r).1.results_processing ≡ r.results_processing

after_handler-returns :
    (id j : ℕ) (mishap : Mishap) (flight : List ℕ) (result : Result (Unit {0})) (after : Redis)
    → after.results_processing ≡ id ∷ flight
    → (after_handler id mishap (result, after)).0 ≡ raised j
    → has_status has_ended ((after_handler id mishap (result, after)).1.tasks j) ≡ true
    → (let left = (after_handler id mishap (result, after)).1 in
        In j (recover_all left.results_processing left).results)
after_handler-returns id j nothing_lost flight (ok done) after kept how ended = cc
after_handler-returns id j at_marker flight (ok done) after kept how ended = cc
after_handler-returns id j at_acknowledgement flight (ok done) after kept how ended = cc
after_handler-returns id j mishap flight (err e) after kept how ended =
    recover_all-returns j after.results_processing after (rw kept (inl (ap (λ c. raised_id c) how)))
      ended
  where
    raised_id : Consumed → ℕ
    raised_id (raised id) = id
    raised_id _ = 0

not-raised :
    (id j : ℕ) (mishap : Mishap) (r : Redis) → ¬ ((drop_duplicate id mishap r).0 ≡ raised j)
not-raised id j nothing_lost r e = cc
not-raised id j at_marker r e = cc
not-raised id j at_acknowledgement r e = cc

-- A result whose handler raises is queued again by the recovery of the next start, if the record of
-- its task says completed or failed: the result is not lost.
pub failed_result_returns :
    (handler : ℕ → Exec Redis (Unit {0})) (minds : KeepsFlight handler) (mishap : Mishap)
    (r : Redis) (j : ℕ)
    → (consume_once handler mishap r).0 ≡ raised j
    → has_status has_ended ((consume_once handler mishap r).1.tasks j) ≡ true
    → In j (recover (consume_once handler mishap r).1).results
unfolding consume_once recover
failed_result_returns handler minds mishap r j = elim (take_cases r) [
  | inl none_left ↦ rw none_left (λ how. cc)
  | inr (id, rest, found) ↦
      let taken : Redis = delivered id rest r in
      elim (Bool-cases (r.consumed id)) [
        | inl marked ↦ rw (found, marked) (λ how. absurd (not-raised id j mishap taken how))
        | inr fresh ↦
            rw (found, fresh)
              (after_handler-returns id j mishap r.results_processing (handler id taken).0
                (handler id taken).1 (minds id taken))
      ]
]
