-- ===== src/Parsing/Chunks/Lengths.antt =====
-- The pieces of the loop: together they are the text, none is empty or too long, and each but the
-- last ends after a break or has the full length.
use omni_sem.Base.{
  ℕ, zero, suc, ◌+◌, ◌≤◌, ◌<◌, ◌≡◌, refl, ap, subst, ◌∙◌, ◌⊎◌, inl, inr, min, max, Bool, true,
  false, none, some, List, [], ◌∷◌, ◌++◌, Text, ltb, leb, length, take, drop, arith, Bool-cases,
  Option-cases, length-take, length-drop, take-append-drop, append-nil,
}
use native.Mathlib.Decide.{dec_le}
use omni_sem.Parsing.Chunks.{rposition, piece_end, cut_loop, cut_all, is_blank, split_oversized}

abbrev pub concat : List Text → Text
concat [] = []
concat (t ∷ ts) = t ++ concat ts

-- The text ends with a break.
abbrev pub EndsInBreak : (ℕ → Bool) → Text → Type 0
EndsInBreak is_break t = (kept : Text) × (c : ℕ) × (t ≡ kept ++ c ∷ []) × (is_break c ≡ true)

abbrev pub Fits : ℕ → Text → Type 0
Fits bound t = (0 < length t) × (length t ≤ bound)

-- Each piece has one to `bound` characters, and each but the last stops at a break or is full.
abbrev pub Pieces : (ℕ → Bool) → ℕ → List Text → Type 0
Pieces is_break bound [] = Unit
Pieces is_break bound (t ∷ []) = Fits bound t
Pieces is_break bound (t ∷ u ∷ ts) =
    Fits bound t × (EndsInBreak is_break t ⊎ (length t ≡ bound)) × Pieces is_break bound (u ∷ ts)

take-take_le {ℓ} : {A : Type ℓ} (m n : ℕ) (xs : List A) → m ≤ n → take m (take n xs) ≡ take m xs
take-take_le zero n xs h = refl
take-take_le (suc m) zero xs h = absurd (omega (arith, h))
take-take_le (suc m) (suc n) [] h = refl
take-take_le (suc m) (suc n) (x ∷ xs) h = ap (◌∷◌ x) (take-take_le m n xs (omega (arith, h)))

take-all {ℓ} : {A : Type ℓ} (xs : List A) → (take (length xs) xs ≡ xs) × (drop (length xs) xs ≡ [])
take-all [] = (refl, refl)
take-all (x ∷ xs) = let (p, q) = take-all xs in (ap (◌∷◌ x) p, q)

module _ (is_break : ℕ → Bool) where
  rposition-EndsInBreak :
      (t : Text) (i : ℕ)
      → rposition is_break t ≡ some i
      → (i < length t) × EndsInBreak is_break (take (i + 1) t)
  unfolding rposition
  rposition-EndsInBreak [] i h = cc
  rposition-EndsInBreak (c ∷ t) i h = elim (Option-cases (rposition is_break t)) [
    | inl missing ↦ elim (Bool-cases (is_break c)) [
      | inl good ↦
          let e : some 0 ≡ some i = rw (missing, good) at h in
          let e' : i ≡ 0 = cc in rw e' (omega arith, ([], c, refl, good))
      | inr bad ↦ let e : none ≡ some i = rw (missing, bad) at h in absurd cc
    ]
    | inr (j, found) ↦
        let e : some (suc j) ≡ some i = rw found at h in
        let e' : i ≡ suc j = cc in
        let (lt, (kept, d, same, b)) = rposition-EndsInBreak t j found in
        let one : suc j + 1 ≡ suc (j + 1) = omega arith in
        rw (e', one) (omega arith, (c ∷ kept, d, ap (◌∷◌ c) same, b))
  ]

  -- The next piece is not empty, fits, and is the rest, or ends in a break, or is full.
  record IsEnd (bound : ℕ) (rest : Text) (end : ℕ) : Type 0 where
    positive : 0 < end
    bounded : end ≤ bound
    inside : end ≤ length rest
    why : (end ≡ length rest) ⊎ (EndsInBreak is_break (take end rest) ⊎ (end ≡ bound))

  piece_end-IsEnd :
      (bound : ℕ) (rest : Text)
      → 0 < bound
      → 0 < length rest
      → IsEnd bound rest (piece_end is_break bound rest)
  unfolding piece_end
  piece_end-IsEnd bound rest pos some_left = elim (dec_le (length rest) bound) [
    | yes short ↦
        let e : min bound (length rest) ≡ length rest = omega arith in
        let f : ltb (length rest) (length rest) ≡ false = ground arith in
        rw (e, f)
          record { positive = some_left; bounded = short; inside = omega arith; why = inl refl }
    | no long ↦
        let e : min bound (length rest) ≡ bound = omega arith in
        let f : ltb bound (length rest) ≡ true = ground arith in
        elim (Option-cases (rposition is_break (take bound rest))) [
          | inl missing ↦
              rw (e, f, missing, e)
                record {
                  positive = pos;
                  bounded = omega arith;
                  inside = omega arith;
                  why = inr (inr refl);
                }
          | inr (i, found) ↦
              let (lt, ends) = rposition-EndsInBreak (take bound rest) i found in
              let lt' : i + 1 ≤ bound = omega (arith, length-take bound rest) in
              let g : ltb 0 (i + 1) ≡ true = ground arith in
              rw (e, f, found, g)
                record {
                  positive = omega arith;
                  bounded = lt';
                  inside = omega arith;
                  why = inr (
                      inl
                        (subst (EndsInBreak is_break) (take-take_le (i + 1) bound rest lt') ends));
                }
        ]
  ]

  Pieces-cons :
      (bound : ℕ) (t : Text) (ts : List Text)
      → Fits bound t
      → ((ts ≡ []) ⊎ (EndsInBreak is_break t ⊎ (length t ≡ bound)))
      → Pieces is_break bound ts
      → Pieces is_break bound (t ∷ ts)
  Pieces-cons bound t [] fits why h = fits
  Pieces-cons bound t (u ∷ ts) fits (inl none_left) h = cc
  Pieces-cons bound t (u ∷ ts) fits (inr why) h = (fits, why, h)

  cut_loop_nil : (bound rounds : ℕ) → cut_loop is_break bound rounds [] ≡ []
  unfolding cut_loop
  cut_loop_nil bound zero = refl
  cut_loop_nil bound (suc rounds) = refl

  cut_loop-Pieces :
      (bound rounds : ℕ) (rest : Text)
      → 0 < bound
      → length rest ≤ rounds
      → (concat (cut_loop is_break bound rounds rest) ≡ rest)
        × Pieces is_break bound (cut_loop is_break bound rounds rest)
  unfolding cut_loop
  cut_loop-Pieces bound zero [] pos enough = (refl, tt)
  cut_loop-Pieces bound zero (c ∷ t) pos enough = absurd (omega (arith, enough))
  cut_loop-Pieces bound (suc rounds) [] pos enough = (refl, tt)
  cut_loop-Pieces bound (suc rounds) (c ∷ t) pos enough =
      let rest = c ∷ t in
      let end = piece_end is_break bound rest in
      let is_end = piece_end-IsEnd bound rest pos (omega arith) in
      let positive = is_end.positive in
      let bounded = is_end.bounded in
      let inside = is_end.inside in
      let (joined, pieces) =
        cut_loop-Pieces bound rounds (drop end rest) pos (omega (arith, length-drop end rest)) in
      let size : length (take end rest) ≡ end = omega (arith, length-take end rest) in
      (
        ap (λ u. take end rest ++ u) joined ∙ take-append-drop end rest,
        Pieces-cons bound (take end rest) (cut_loop is_break bound rounds (drop end rest))
            (rw size (positive, bounded))
            (elim is_end.why [
              | inl all_of_it ↦ inl (rw (all_of_it, (take-all rest).1) (cut_loop_nil bound rounds))
              | inr (inl ends) ↦ inr (inl ends)
              | inr (inr full) ↦ inr (inr (size ∙ full))
            ])
            pieces,
      )

  pub cut_all-Pieces :
      (bound : ℕ) (text : Text)
      → 0 < bound
      → (concat (cut_all is_break bound text) ≡ text)
        × Pieces is_break bound (cut_all is_break bound text)
  unfolding cut_all
  cut_all-Pieces bound text pos = cut_loop-Pieces bound (length text) text pos (omega arith)

-- The pieces of a text are, joined, the text. A text within the bound (which counts as one when it
-- is zero) is its only piece; otherwise each piece has one to `max_chars` characters, and each but
-- the last stops after a newline or a space or has `max_chars` characters.
pub split_oversized_lem :
    (text : Text) (max_chars : ℕ)
    → (concat (split_oversized text max_chars) ≡ text)
      × (((length text ≤ max max_chars 1) × (split_oversized text max_chars ≡ text ∷ []))
          ⊎ ((max max_chars 1 < length text)
              × Pieces is_blank (max max_chars 1) (split_oversized text max_chars)))
unfolding split_oversized
split_oversized_lem text max_chars = elim (dec_le (length text) (max max_chars 1)) [
  | yes short ↦
      let e : leb (length text) (max max_chars 1) ≡ true = ground arith in
      rw e (append-nil text, inl (short, refl))
  | no long ↦
      let e : leb (length text) (max max_chars 1) ≡ false = ground arith in
      let (joined, pieces) = cut_all-Pieces is_blank (max max_chars 1) text (omega arith) in
      rw e (joined, inr (omega arith, pieces))
]
