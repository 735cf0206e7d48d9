-- ===== src/Mission/Replies.antt =====
-- How services/mission/decomposition.py and services/mission/mission_evaluator.py take the JSON out
-- of a model's reply. Text is a list of code points.
pub mod Fences
pub mod Samples
use agent_os.Prelude.{
  ℕ, suc, zero, Bool, true, false, List, [], ◌∷◌, ◌++◌, leb, ◌==◌, ◌&&◌, ◌||◌, if◌then◌else◌,
}
use agent_os.Text.{starts_with}

-- str.isspace
abbrev pub is_space : ℕ → Bool
is_space c =
    (leb 9 c && leb c 13)
    || (leb 28 c && leb c 32)
    || (c == 133)
    || (c == 160)
    || (c == 5760)
    || (leb 8192 c && leb c 8202)
    || (c == 8232)
    || (c == 8233)
    || (c == 8239)
    || (c == 8287)
    || (c == 12288)

abbrev pub is_nil : List ℕ → Bool
is_nil [] = true
is_nil (c ∷ s) = false

unfoldable pub strip_start : List ℕ → List ℕ
strip_start [] = []
strip_start (c ∷ s) = let rest = strip_start s in if is_space c then rest else c ∷ s

unfoldable pub strip_end : List ℕ → List ℕ
strip_end [] = []
strip_end (c ∷ s) = let rest = strip_end s in if is_space c && is_nil rest then [] else c ∷ rest

-- text.strip()
abbrev pub strip : List ℕ → List ℕ
strip s = strip_end (strip_start s)

-- s[n:]
unfoldable pub drop : ℕ → List ℕ → List ℕ
drop zero s = s
drop (suc n) [] = []
drop (suc n) (c ∷ s) = drop n s

abbrev pub fence : List ℕ
fence = 96 ∷ 96 ∷ 96 ∷ []

-- the code points of "json"
abbrev pub json_tag : List ℕ
json_tag = 106 ∷ 115 ∷ 111 ∷ 110 ∷ []

-- what stands before the next fence, or all of it
unfoldable pub before_fence : List ℕ → List ℕ
before_fence [] = []
before_fence (c ∷ s) =
    let rest = before_fence s in if starts_with fence (c ∷ s) then [] else c ∷ rest

unfoldable pub drop_tag : List ℕ → List ℕ
drop_tag s = if starts_with json_tag s then drop 4 s else s

-- The text for json.loads. A text that starts with a fence has nothing before it, so
-- text.split("```")[1] is what follows up to the next fence.
unfoldable pub unfence : List ℕ → List ℕ
unfence s =
    let text = strip s in
    if starts_with fence text then strip (drop_tag (before_fence (drop 3 text))) else text
