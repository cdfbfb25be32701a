-- ===== src/Tokens.antt =====
-- crates/omnisem-core/src/tokens.rs: the token estimator, the size constants and the truncation of
-- UTF-8 text. A text is the list of its code points, so its length in bytes is computed.
pub mod Truncation
pub mod Response
mod Examples
use omni_sem.Base.{
  ℕ, zero, suc, ◌+◌, ◌-◌, ◌/◌, min, Bool, true, false, not, List, [], ◌∷◌, ◌++◌, Text, ltb, leb,
  ◌==◌, if◌then◌else◌, length, saturating_add,
}

abbrev pub response_overhead_tokens : ℕ
response_overhead_tokens = 16

abbrev pub result_overhead_tokens : ℕ
result_overhead_tokens = 8

abbrev pub hard_byte_cap : ℕ
hard_byte_cap = 48_000

abbrev pub max_hit_text_bytes : ℕ
max_hit_text_bytes = 4_000

-- `char::len_utf8`.
pub len_utf8 : ℕ → ℕ
len_utf8 c = if ltb c 0x80 then 1 else if ltb c 0x800 then 2 else if ltb c 0x10000 then 3 else 4

-- `str::len`.
pub byte_len : Text → ℕ
byte_len [] = 0
byte_len (c ∷ t) = len_utf8 c + byte_len t

-- `str::is_char_boundary`.
pub is_char_boundary : Text → ℕ → Bool
is_char_boundary t zero = true
is_char_boundary [] (suc i) = false
is_char_boundary (c ∷ t) (suc i) =
    if ltb (suc i) (len_utf8 c) then false else is_char_boundary t (suc i - len_utf8 c)

-- `text[..end]`, at a character boundary.
pub slice_to : Text → ℕ → Text
slice_to t zero = []
slice_to [] (suc i) = []
slice_to (c ∷ t) (suc i) = c ∷ slice_to t (suc i - len_utf8 c)

-- `HeuristicTokenEstimator::estimate`.
unfoldable pub estimate : Text → ℕ
estimate text = let chars = length text in if chars == 0 then 0 else (chars + 2) / 3

response_loop : ℕ → List Text → ℕ
response_loop total [] = total
response_loop total (text ∷ rest) =
    response_loop (saturating_add total (result_overhead_tokens + estimate text)) rest

pub estimate_response_tokens : Text → List Text → ℕ
unfolding response_loop
estimate_response_tokens query hit_texts =
    response_loop (response_overhead_tokens + estimate query) hit_texts

-- The loop that moves `end` back to a character boundary.
pub boundary_before : Text → ℕ → ℕ
boundary_before text zero = zero
boundary_before text (suc end) =
    let rest = boundary_before text end in if is_char_boundary text (suc end) then suc end else rest

abbrev ellipsis : ℕ
ellipsis = 0x2026

ends_with : ℕ → Text → Bool
ends_with c [] = false
ends_with c (d ∷ []) = c == d
ends_with c (d ∷ e ∷ t) = ends_with c (e ∷ t)

-- `if !out.ends_with('…') { out.push('…') }`.
mark_end : Text → Text
mark_end out = if not (ends_with ellipsis out) then out ++ ellipsis ∷ [] else out

unfoldable pub truncate_utf8 : Text → ℕ → Text × Bool
unfolding slice_to boundary_before ends_with mark_end byte_len is_char_boundary len_utf8
truncate_utf8 text max_bytes =
    if leb (byte_len text) max_bytes
    then (text, false)
    else (mark_end (slice_to text (boundary_before text (min max_bytes (byte_len text)))), true)
