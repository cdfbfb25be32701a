-- ===== src/Tokens/Truncation.antt =====
-- What `truncate_utf8` of tokens.rs returns: where it cuts, and how long the result is.
use omni_sem.Base.{
  ℕ, zero, suc, ◌+◌, ◌-◌, ◌≤◌, ◌<◌, min, ◌≡◌, ◌≢◌, refl, sym, ap, ==_iff, ◌⊎◌, inl, inr, true,
  false, [], ◌∷◌, ◌++◌, Text, length, arith, Bool-cases, length-append,
}
use native.Mathlib.Decide.{ℕ_discrete, dec_le}
use omni_sem.Tokens.{
  len_utf8, byte_len, is_char_boundary, slice_to, boundary_before, ellipsis, ends_with, mark_end,
  truncate_utf8,
}

pub len_utf8_bounds : (c : ℕ) → (1 ≤ len_utf8 c) × (len_utf8 c ≤ 4)
unfolding len_utf8
len_utf8_bounds c = ground arith

-- Cutting at a boundary gives exactly that many bytes.
byte_len-slice_to : (t : Text) (i : ℕ) → is_char_boundary t i ≡ true → byte_len (slice_to t i) ≡ i
unfolding byte_len slice_to is_char_boundary
byte_len-slice_to t zero h = refl
byte_len-slice_to [] (suc i) h = cc
byte_len-slice_to (c ∷ t) (suc i) h =
    ground (arith, len_utf8_bounds c, byte_len-slice_to t (suc i - len_utf8 c))

length-slice_to : (t : Text) (i : ℕ) → length (slice_to t i) ≤ length t
unfolding slice_to
length-slice_to t zero = omega arith
length-slice_to [] (suc i) = omega arith
length-slice_to (c ∷ t) (suc i) = omega (arith, length-slice_to t (suc i - len_utf8 c))

length-slice_to-lt :
    (t : Text) (i : ℕ)
    → is_char_boundary t i ≡ true
    → i < byte_len t
    → length (slice_to t i) < length t
unfolding byte_len slice_to is_char_boundary
length-slice_to-lt [] i h k = absurd (omega arith)
length-slice_to-lt (c ∷ t) zero h k = omega arith
length-slice_to-lt (c ∷ t) (suc i) h k =
    ground (arith, len_utf8_bounds c, length-slice_to-lt t (suc i - len_utf8 c))

-- What is cut off.
pub slice_to-prefix : (t : Text) (i : ℕ) → (rest : Text) × (slice_to t i ++ rest ≡ t)
unfolding slice_to
slice_to-prefix t zero = (t, refl)
slice_to-prefix [] (suc i) = ([], refl)
slice_to-prefix (c ∷ t) (suc i) =
    let (rest, e) = slice_to-prefix t (suc i - len_utf8 c) in (rest, cc)

pub boundary_before-le : (t : Text) (end : ℕ) → boundary_before t end ≤ end
unfolding boundary_before
boundary_before-le t zero = omega arith
boundary_before-le t (suc end) = ground (arith, boundary_before-le t end)

pub boundary_before-is_char_boundary :
    (t : Text) (end : ℕ) → is_char_boundary t (boundary_before t end) ≡ true
unfolding boundary_before is_char_boundary
boundary_before-is_char_boundary [] zero = refl
boundary_before-is_char_boundary (c ∷ t) zero = refl
boundary_before-is_char_boundary t (suc end) = elim (Bool-cases (is_char_boundary t (suc end))) [
  | inl yes_there ↦ rw yes_there yes_there
  | inr not_there ↦ rw not_there (boundary_before-is_char_boundary t end)
]

-- Every boundary up to `end` is at most the one that the loop stops at.
pub boundary_before-greatest :
    (t : Text) (end i : ℕ) → is_char_boundary t i ≡ true → i ≤ end → i ≤ boundary_before t end
unfolding boundary_before
boundary_before-greatest t zero i b h = h
boundary_before-greatest t (suc end) i b h = elim (ℕ_discrete i (suc end)) [
  | yes e ↦ let last : is_char_boundary t (suc end) ≡ true = rw (← e) b in rw last h
  | no ne ↦ ground (arith, boundary_before-greatest t end i b)
]

byte_len-append : (s t : Text) → byte_len (s ++ t) ≡ byte_len s + byte_len t
unfolding byte_len
byte_len-append [] t = omega arith
byte_len-append (c ∷ s) t = omega (arith, byte_len-append s t)

byte_len-push_ellipsis : (t : Text) → byte_len (t ++ ellipsis ∷ []) ≡ byte_len t + 3
unfolding byte_len len_utf8
byte_len-push_ellipsis t = rw byte_len-append refl

ends_with-append : (front : Text) → ends_with ellipsis (front ++ ellipsis ∷ []) ≡ true
unfolding ends_with
ends_with-append [] = refl
ends_with-append (d ∷ []) = refl
ends_with-append (d ∷ e ∷ front) = ends_with-append (e ∷ front)

ends_with-front :
    (t : Text) → ends_with ellipsis t ≡ true → (front : Text) × (t ≡ front ++ ellipsis ∷ [])
unfolding ends_with
ends_with-front [] h = absurd (ground arith)
ends_with-front (d ∷ []) h =
    let same : ellipsis ≡ d = (==_iff ellipsis d).0 h in ([], ap (λ c. c ∷ []) (sym same))
ends_with-front (d ∷ e ∷ t) h =
    let (front, same) = ends_with-front (e ∷ t) h in (d ∷ front, ap (◌∷◌ d) same)

-- Text that ends with "…" stays as it is, and to text that does not "…" is added.
pub data Marked (kept : Text) : Text → Type 0 where
  there_already : (front : Text) → kept ≡ front ++ ellipsis ∷ [] → Marked kept kept
  added : ((front : Text) → kept ≢ front ++ ellipsis ∷ []) → Marked kept (kept ++ ellipsis ∷ [])

mark_end-Marked : (kept : Text) → Marked kept (mark_end kept)
unfolding mark_end
mark_end-Marked kept = elim (Bool-cases (ends_with ellipsis kept)) [
  | inl ends ↦ let (front, e) = ends_with-front kept ends in rw ends (there_already front e)
  | inr unmarked ↦ rw unmarked (
      added (λ front e.
        let clash : ends_with ellipsis kept ≡ true = rw e (ends_with-append front) in
        absurd (ground arith)))
]

mark_end-cases : (out : Text) → (mark_end out ≡ out) ⊎ (mark_end out ≡ out ++ ellipsis ∷ [])
unfolding mark_end
mark_end-cases out = ground arith

length-mark_end : (out : Text) → length (mark_end out) ≤ length out + 1
length-mark_end out = ground (arith, mark_end-cases out, length-append out (ellipsis ∷ []))

byte_len-mark_end : (out : Text) → byte_len (mark_end out) ≤ byte_len out + 3
byte_len-mark_end out = ground (arith, mark_end-cases out, byte_len-push_ellipsis out)

-- A text longer than the bound is cut at the last boundary within the bound, and "…" follows unless
-- what is kept already ends with it.
pub record IsCut (text : Text) (max_bytes : ℕ) (out : Text) : Type 0 where
  pub kept : Text
  pub rest : Text
  pub splits : kept ++ rest ≡ text
  pub within : byte_len kept ≤ max_bytes
  pub greatest : (i : ℕ) → is_char_boundary text i ≡ true → i ≤ max_bytes → i ≤ byte_len kept
  pub marked : Marked kept out
  pub bytes : byte_len out ≤ max_bytes + 3
  pub chars : length out ≤ length text

mark_end-IsCut :
    (text : Text) (max_bytes : ℕ)
    → max_bytes < byte_len text
    → IsCut text max_bytes (mark_end (slice_to text (boundary_before text max_bytes)))
mark_end-IsCut text max_bytes h =
    let end = boundary_before text max_bytes in
    let out = slice_to text end in
    let boundary = boundary_before-is_char_boundary text max_bytes in
    let size = byte_len-slice_to text end boundary in
    let low = boundary_before-le text max_bytes in
    let (rest, splits) = slice_to-prefix text end in
    record {
      kept = out;
      rest = rest;
      splits = splits;
      within = omega arith;
      greatest = λ i b k. rw size (boundary_before-greatest text max_bytes i b k);
      marked = mark_end-Marked out;
      bytes = omega (arith, byte_len-mark_end out);
      chars = omega (arith, length-mark_end out, length-slice_to-lt text end boundary);
    }

truncate_utf8-exceeds :
    (text : Text) (max_bytes : ℕ)
    → max_bytes < byte_len text
    → truncate_utf8 text max_bytes
      ≡ (mark_end (slice_to text (boundary_before text max_bytes)), true)
unfolding truncate_utf8
truncate_utf8-exceeds text max_bytes h =
    let e : min max_bytes (byte_len text) ≡ max_bytes = omega arith in rw e (ground arith)

-- A text that fits is returned as it is.
pub truncate_utf8_fits :
    (text : Text) (max_bytes : ℕ)
    → byte_len text ≤ max_bytes
    → truncate_utf8 text max_bytes ≡ (text, false)
unfolding truncate_utf8
truncate_utf8_fits text max_bytes h = ground arith

-- A text within the bound is returned unchanged and unflagged. A longer one is flagged and cut at
-- its last character boundary within the bound: what is kept is a prefix of the text of at most
-- `max_bytes` bytes, an ellipsis follows unless it is there already, and the result has at most
-- `max_bytes + 3` bytes and no more characters than the text.
pub truncate_utf8_lem :
    (text : Text) (max_bytes : ℕ)
    → ((byte_len text ≤ max_bytes) × (truncate_utf8 text max_bytes ≡ (text, false)))
      ⊎ ((max_bytes < byte_len text)
          × ((truncate_utf8 text max_bytes).1 ≡ true)
          × IsCut text max_bytes (truncate_utf8 text max_bytes).0)
truncate_utf8_lem text max_bytes = elim (dec_le (byte_len text) max_bytes) [
  | yes fits ↦ inl (fits, truncate_utf8_fits text max_bytes fits)
  | no exceeds ↦
      let h : max_bytes < byte_len text = omega arith in
      inr (rw (truncate_utf8-exceeds text max_bytes h) (h, refl, mark_end-IsCut text max_bytes h))
]

pub truncate_utf8_bounds :
    (text : Text) (max_bytes : ℕ)
    → (byte_len (truncate_utf8 text max_bytes).0 ≤ max_bytes + 3)
      × (length (truncate_utf8 text max_bytes).0 ≤ length text)
truncate_utf8_bounds text max_bytes = elim (truncate_utf8_lem text max_bytes) [
  | inl (fits, same) ↦ rw same (omega arith)
  | inr (exceeds, flagged, cut) ↦ (cut.bytes, cut.chars)
]
