-- ===== src/Parsing/PlainText/Segments.antt =====
-- The segments of a plain text: joined they are the text, and they are numbered in order.
use omni_sem.Base.{
  ℕ, ◌+◌, ◌≤◌, ◌<◌, ◌≡◌, refl, ap, ◌⊎◌, inl, inr, max, true, false, List, [], ◌∷◌, Text, decimal,
  leb, length, map, arith, append-nil,
}
use native.Mathlib.Decide.{dec_le}
use omni_sem.Domain.{paragraph}
use omni_sem.Parsing.{ParsedSegment}
use omni_sem.Parsing.Chunks.{cut_all}
use omni_sem.Parsing.Chunks.Lengths.{concat, Pieces, cut_all-Pieces}
use omni_sem.Parsing.PlainText.{is_newline, text_anchor, push_segments, split_plain_text}

abbrev pub texts : List ParsedSegment → List Text
texts segments = map (λ s. s.text) segments

-- The segments are paragraphs with the ordinals from `n` on and the anchors one above them.
abbrev pub NumberedFrom : ℕ → List ParsedSegment → Type 0
NumberedFrom n [] = Unit
NumberedFrom n (s ∷ segments) =
    (s.ordinal ≡ n)
    × (s.anchor ≡ text_anchor (n + 1))
    × (s.segment_type ≡ paragraph)
    × NumberedFrom (n + 1) segments

texts-push_segments : (index : ℕ) (chunks : List Text) → texts (push_segments index chunks) ≡ chunks
unfolding push_segments
texts-push_segments index [] = refl
texts-push_segments index (c ∷ chunks) = ap (◌∷◌ c) (texts-push_segments (index + 1) chunks)

push_segments-NumberedFrom :
    (n : ℕ) (chunks : List Text) → NumberedFrom n (push_segments (n + 1) chunks)
unfolding push_segments
push_segments-NumberedFrom n [] = tt
push_segments-NumberedFrom n (c ∷ chunks) =
    (omega arith, refl, refl, push_segments-NumberedFrom (n + 1) chunks)

-- The texts of the segments of a plain text are, joined, the text, and the segments are paragraphs
-- with the ordinals 0, 1, 2, ... and the anchors `text:1`, `text:2`, .... A text within the bound
-- (which counts as one when it is zero) is the only segment; otherwise each segment has one to
-- `max_chars` characters, and each but the last stops after a newline or has `max_chars`
-- characters.
pub split_plain_text_lem :
    (text : Text) (max_chars : ℕ)
    → (concat (texts (split_plain_text text max_chars)) ≡ text)
      × NumberedFrom 0 (split_plain_text text max_chars)
      × (((length text ≤ max max_chars 1) × (texts (split_plain_text text max_chars) ≡ text ∷ []))
          ⊎ ((max max_chars 1 < length text)
              × Pieces is_newline (max max_chars 1) (texts (split_plain_text text max_chars))))
unfolding split_plain_text text_anchor decimal
split_plain_text_lem [] max_chars = (refl, (refl, refl, refl, tt), inl (omega arith, refl))
split_plain_text_lem (c ∷ t) max_chars = elim (dec_le (length (c ∷ t)) (max max_chars 1)) [
  | yes short ↦
      let e : leb (length (c ∷ t)) (max max_chars 1) ≡ true = ground arith in
      rw e (append-nil (c ∷ t), (refl, refl, refl, tt), inl (short, refl))
  | no long ↦
      let e : leb (length (c ∷ t)) (max max_chars 1) ≡ false = ground arith in
      let chunks = cut_all is_newline (max max_chars 1) (c ∷ t) in
      let (joined, pieces) = cut_all-Pieces is_newline (max max_chars 1) (c ∷ t) (omega arith) in
      let same = texts-push_segments 1 chunks in
      rw (e, same) (joined, push_segments-NumberedFrom 0 chunks, inr (omega arith, pieces))
]
