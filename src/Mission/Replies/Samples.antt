-- ===== src/Mission/Replies/Samples.antt =====
-- A reply that services/mission/decomposition.py and services/mission/mission_evaluator.py read.
use agent_os.Prelude.{ℕ, ◌≡◌, refl, List, [], ◌∷◌, ◌++◌}
use agent_os.Text.{starts_with}
use agent_os.Mission.Replies.{
  strip_start, strip_end, strip, drop, fence, json_tag, before_fence, drop_tag, unfence,
}
use agent_os.Mission.Replies.Fences.{unfence-fenced}

program : Unit {0}
unfolding strip_start strip_end drop before_fence drop_tag unfence starts_with
program = tt

-- A line break, the empty array, and another line break.
abbrev pub body : List ℕ
body = 10 ∷ 91 ∷ 93 ∷ 10 ∷ []

fenced_body : unfence (32 ∷ (fence ++ (json_tag ++ (body ++ fence)))) ≡ 91 ∷ 93 ∷ []
unfolding program
fenced_body = refl

unfence-fenced_example :
    (unfence (fence ++ (json_tag ++ (body ++ fence))) ≡ strip body) × (unfence body ≡ strip body)
unfence-fenced_example = unfence-fenced body (refl, (refl, (refl, (refl, tt))))
