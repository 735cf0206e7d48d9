-- ===== src/Mission/Replies/Fences.antt =====
-- A fenced reply is read like a plain one by services/mission/decomposition.py.
use agent_os.Prelude.{
  ℕ, ◌≡◌, refl, inl, inr, false, List, [], ◌∷◌, ◌++◌, ◌==◌, ◌&&◌, Bool-cases, All, arith,
}
use agent_os.Text.{starts_with}
use agent_os.Mission.Replies.{
  is_space, is_nil, strip_start, strip_end, strip, drop, fence, json_tag, before_fence, drop_tag,
  unfence,
}

-- No backtick.
abbrev pub HasNoTick : List ℕ → Type 0
HasNoTick s = All (λ c. (c == 96) ≡ false) s

before_fence-closed : (s : List ℕ) → HasNoTick s → before_fence (s ++ fence) ≡ s
unfolding before_fence starts_with
before_fence-closed [] h = refl
before_fence-closed (c ∷ s) h = ground (arith, before_fence-closed s h.1)

not_nil : (s : List ℕ) → is_nil (s ++ fence) ≡ false
not_nil [] = refl
not_nil (c ∷ s) = refl

strip_end-closed : (s : List ℕ) → strip_end (s ++ fence) ≡ s ++ fence
unfolding strip_end
strip_end-closed [] = refl
strip_end-closed (c ∷ s) =
    rw (strip_end-closed s, not_nil s)
      (elim (Bool-cases (is_space c)) [ inl space ↦ rw space refl | inr letter ↦ rw letter refl ])

strip_start-HasNoTick : (s : List ℕ) → HasNoTick s → HasNoTick (strip_start s)
unfolding strip_start
strip_start-HasNoTick [] h = tt
strip_start-HasNoTick (c ∷ s) h = elim (Bool-cases (is_space c)) [
  | inl space ↦ rw space (strip_start-HasNoTick s h.1)
  | inr letter ↦ rw letter h
]

strip_end-HasNoTick : (s : List ℕ) → HasNoTick s → HasNoTick (strip_end s)
unfolding strip_end
strip_end-HasNoTick [] h = tt
strip_end-HasNoTick (c ∷ s) h = elim (Bool-cases (is_space c && is_nil (strip_end s))) [
  | inl over ↦ rw over tt
  | inr more ↦ rw more (h.0, strip_end-HasNoTick s h.1)
]

HasNoTick-starts_with : (s : List ℕ) → HasNoTick s → starts_with fence s ≡ false
unfolding starts_with
HasNoTick-starts_with [] h = refl
HasNoTick-starts_with (c ∷ s) h = ground arith

-- A reply without backticks, wrapped in a fence that is marked as JSON, is read as the reply itself
-- is: surrounding spaces are dropped and nothing else.
pub unfence-fenced :
    (body : List ℕ)
    → HasNoTick body
    → (unfence (fence ++ (json_tag ++ (body ++ fence))) ≡ strip body) × (unfence body ≡ strip body)
unfolding unfence drop_tag drop starts_with strip_start before_fence
unfence-fenced body h = (
  rw (strip_end-closed (fence ++ (json_tag ++ body)), before_fence-closed body h) refl,
  rw
      (HasNoTick-starts_with (strip body)
        (strip_end-HasNoTick (strip_start body) (strip_start-HasNoTick body h)))
      refl,
)
