-- ===== src/Parsing/Chunks.antt =====
-- The loop that `split_oversized` of parsing/markdown.rs and `split_plain_text` of
-- parsing/plain_text.rs share: a text is cut into pieces of at most a number of characters, after
-- the last break before the bound if there is one. The characters from `start` on are the argument
-- of the loop.
pub mod Lengths
use omni_sem.Base.{
  ℕ, zero, suc, ◌+◌, min, max, Bool, true, false, ◌||◌, Option, none, some, List, [], ◌∷◌, Text,
  ltb, leb, ◌==◌, if◌then◌else◌, length, take, drop,
}

-- `iter().rposition(is_break)`.
pub rposition : (ℕ → Bool) → Text → Option ℕ
rposition is_break [] = none
rposition is_break (c ∷ t) = elim (rposition is_break t) [
  | some i ↦ some (suc i)
  | none ↦ if is_break c then some 0 else none
]

-- The length of the next piece: `end - start`.
pub piece_end : (ℕ → Bool) → ℕ → Text → ℕ
piece_end is_break max_chars rest =
    let hard_end = min max_chars (length rest) in
    if ltb hard_end (length rest)
    then elim (rposition is_break (take hard_end rest)) [
      | some relative ↦ if ltb 0 (relative + 1) then relative + 1 else hard_end
      | none ↦ hard_end
    ]
    else hard_end

-- The loop, with a bound on its rounds.
pub cut_loop : (ℕ → Bool) → ℕ → ℕ → Text → List Text
cut_loop is_break max_chars zero rest = []
cut_loop is_break max_chars (suc rounds) [] = []
cut_loop is_break max_chars (suc rounds) (c ∷ t) =
    let rest = c ∷ t in
    let end = piece_end is_break max_chars rest in
    take end rest ∷ cut_loop is_break max_chars rounds (drop end rest)

-- Each round takes a character or more, so as many rounds as characters are enough.
pub cut_all : (ℕ → Bool) → ℕ → Text → List Text
cut_all is_break max_chars text = cut_loop is_break max_chars (length text) text

-- parsing/markdown.rs: the breaks are newlines and spaces.
pub is_blank : ℕ → Bool
is_blank c = (c == 10) || (c == 32)

unfoldable pub split_oversized : Text → ℕ → List Text
unfolding cut_all
split_oversized text max_chars =
    if leb (length text) (max max_chars 1)
    then text ∷ []
    else cut_all is_blank (max max_chars 1) text
