-- ===== src/Parsing/Markdown/Slug.antt =====
-- parsing/markdown.rs: `slugify`, what a slug looks like, and that a slug is its own slug.
use omni_sem.Base.{
  is_ascii_alphanumeric, to_ascii_lowercase, ℕ, ◌≤◌, ◌<◌, ◌≡◌, ◌≢◌, refl, subst, sym, ◌⊎◌, inl, inr,
  Bool, true, false, not, ◌&&◌, [], ◌∷◌, ◌++◌, Text, codes, ◌==◌, if◌then◌else◌, is_empty, length,
  arith, Bool-cases, All, All-append, append_assoc, append-nil, trim_end,
}

-- One character: the slug and `previous_dash` after it.
abbrev next_slug : Text → Bool → ℕ → Text
next_slug slug previous_dash ch =
    if is_ascii_alphanumeric ch
    then slug ++ to_ascii_lowercase ch ∷ []
    else if not previous_dash && not (is_empty slug)
    then slug ++ 45 ∷ []
    else slug

abbrev next_dash : Text → Bool → ℕ → Bool
next_dash slug previous_dash ch =
    if is_ascii_alphanumeric ch
    then false
    else if not previous_dash && not (is_empty slug)
    then true
    else previous_dash

-- The loop over the characters.
unfoldable pub slug_chars : Text → Bool → Text → Text
slug_chars slug previous_dash [] = slug
slug_chars slug previous_dash (ch ∷ rest) =
    slug_chars (next_slug slug previous_dash ch) (next_dash slug previous_dash ch) rest

unfoldable pub slugify : Text → Text
unfolding slug_chars trim_end
slugify input =
    let slug = trim_end (λ c. c == 45) (slug_chars [] false input) in
    if is_empty slug then codes "section" else slug

abbrev pub IsLower : ℕ → Type 0
IsLower c = ((48 ≤ c) × (c ≤ 57)) ⊎ ((97 ≤ c) × (c ≤ 122))

-- Lower-case ASCII letters and digits, with single dashes between them and perhaps one at the end, which
-- the second index tells.
pub data Dashed : Text → Bool → Type 0 where
  empty : Dashed [] false
  letter :
      {s t : Text} {d : Bool} (c : ℕ) → Dashed s d → IsLower c → t ≡ s ++ c ∷ [] → Dashed t false
  dash : {s t : Text} → Dashed s false → 0 < length s → t ≡ s ++ 45 ∷ [] → Dashed t true

abbrev pub IsSlug : Text → Type 0
IsSlug s = Dashed s false × (0 < length s)

IsLower-lowercase : (c : ℕ) → is_ascii_alphanumeric c ≡ true → IsLower (to_ascii_lowercase c)
IsLower-lowercase c h = ground arith

next_slug-Dashed :
    (slug : Text) (d : Bool) (c : ℕ)
    → Dashed slug d
    → Dashed (next_slug slug d c) (next_dash slug d c)
next_slug-Dashed slug d c h = elim (Bool-cases (is_ascii_alphanumeric c)) [
  | inl alpha ↦ rw alpha (letter (to_ascii_lowercase c) h (IsLower-lowercase c alpha) refl)
  | inr other ↦ rw other (separated slug d h)
]
  where
    separated :
        (slug : Text) (d : Bool)
        → Dashed slug d
        → Dashed
            (if not d && not (is_empty slug) then slug ++ 45 ∷ [] else slug)
            (if not d && not (is_empty slug) then true else d)
    separated slug true h = h
    separated [] false h = h
    separated (x ∷ slug) false h = dash h (omega arith) refl

abbrev pub NoTilde : Text → Type 0
NoTilde t = All (λ c. c ≢ 126) t

is_empty_of_lt : (s : Text) → 0 < length s → is_empty s ≡ false
is_empty_of_lt [] h = absurd (omega arith)
is_empty_of_lt (c ∷ s) h = refl

slug_chars-Dashed :
    (input slug : Text) (d : Bool) → Dashed slug d → (e : Bool) × Dashed (slug_chars slug d input) e
unfolding slug_chars
slug_chars-Dashed [] slug d h = (d, h)
slug_chars-Dashed (c ∷ input) slug d h =
    slug_chars-Dashed input (next_slug slug d c) (next_dash slug d c) (next_slug-Dashed slug d c h)

module _ (p : ℕ → Bool) where
  trim_end-drop : (s : Text) (c : ℕ) → p c ≡ true → trim_end p (s ++ c ∷ []) ≡ trim_end p s
  unfolding trim_end
  trim_end-drop [] c h = rw h refl
  trim_end-drop (x ∷ s) c h = rw (trim_end-drop s c h) refl

  trim_end-keep : (s : Text) (c : ℕ) → p c ≡ false → trim_end p (s ++ c ∷ []) ≡ s ++ c ∷ []
  unfolding trim_end
  trim_end-keep [] c h = rw h refl
  trim_end-keep (x ∷ s) c h = rw (trim_end-keep s c h) (ended s)
    where
      ended :
          (s : Text)
          → (if p x && is_empty (s ++ c ∷ []) then [] else x ∷ (s ++ c ∷ [])) ≡ x ∷ (s ++ c ∷ [])
      ended [] = elim (Bool-cases (p x)) [ inl a ↦ rw a refl | inr b ↦ rw b refl ]
      ended (y ∷ s) = elim (Bool-cases (p x)) [ inl a ↦ rw a refl | inr b ↦ rw b refl ]

IsLower-dash : (c : ℕ) → IsLower c → (c == 45) ≡ false
IsLower-dash c h = ground arith

-- A text that ends in no dash is left alone.
trim_end-Dashed : (s : Text) → Dashed s false → trim_end (λ c. c == 45) s ≡ s
unfolding trim_end
trim_end-Dashed _ empty = refl
trim_end-Dashed t (letter {s} c h low e) =
    subst (λ u. trim_end (λ c. c == 45) u ≡ u) (sym e)
      (trim_end-keep (λ c. c == 45) s c (IsLower-dash c low))

is_ascii_alphanumeric-lower :
    (c : ℕ) → IsLower c → (is_ascii_alphanumeric c ≡ true) × (to_ascii_lowercase c ≡ c)
is_ascii_alphanumeric-lower c h = (ground arith, ground arith)

-- Reading what was written writes it again.
slug_chars-again :
    (s : Text) (d : Bool)
    → Dashed s d
    → (rest : Text) → slug_chars [] false (s ++ rest) ≡ slug_chars s d rest
unfolding slug_chars
slug_chars-again _ _ empty rest = refl
slug_chars-again t _ (letter {s} {d} c h low e) rest =
    let (alpha, same) = is_ascii_alphanumeric-lower c low in
    let ih = slug_chars-again s d h (c ∷ rest) in
    rw (e, append_assoc s (c ∷ []) rest) (rw (slug_chars, alpha, same) at ih)
slug_chars-again t _ (dash {s} h long e) rest =
    let ih = slug_chars-again s false h (45 ∷ rest) in
    let nonempty : is_empty s ≡ false = is_empty_of_lt s long in
    rw (e, append_assoc s (45 ∷ []) rest) (rw (slug_chars, nonempty) at ih)

-- What is left without the dashes at the end is a slug or nothing.
trim_end-slug_chars :
    (input : Text) → Dashed (trim_end (λ c. c == 45) (slug_chars [] false input)) false
trim_end-slug_chars input = trimmed (slug_chars-Dashed input [] false empty).1
  where
    trimmed : {s : Text} {d : Bool} → Dashed s d → Dashed (trim_end (λ c. c == 45) s) false
    trimmed empty = rw (trim_end-Dashed [] empty) empty
    trimmed {s = t} (letter {s} c h low e) =
        rw (trim_end-Dashed t (letter c h low e)) (letter c h low e)
    trimmed {s = t} (dash {s} h long e) =
        rw (e, trim_end-drop (λ c. c == 45) s 45 refl, trim_end-Dashed s h) h

IsSlug-section : IsSlug (codes "section")
IsSlug-section = (
  letter {s = codes "sectio"} 110
      (letter {s = codes "secti"} 111
        (letter {s = codes "sect"} 105
          (letter {s = codes "sec"} 116
            (letter {s = codes "se"} 99
              (letter {s = codes "s"} 101
                (letter {s = []} 115 empty (inr (omega arith, omega arith)) refl)
                (inr (omega arith, omega arith)) refl)
              (inr (omega arith, omega arith)) refl)
            (inr (omega arith, omega arith)) refl)
          (inr (omega arith, omega arith)) refl)
        (inr (omega arith, omega arith)) refl)
      (inr (omega arith, omega arith)) refl,
  omega arith,
)

pub slugify-IsSlug : (input : Text) → IsSlug (slugify input)
unfolding slugify
slugify-IsSlug input = shaped (trim_end-slug_chars input)
  where
    shaped : {s : Text} → Dashed s false → IsSlug (if is_empty s then codes "section" else s)
    shaped {s = []} h = IsSlug-section
    shaped {s = c ∷ s} h = (h, omega arith)

slugify-of_IsSlug : (s : Text) → IsSlug s → slugify s ≡ s
unfolding slugify
slugify-of_IsSlug s (h, long) =
    let read : slug_chars [] false s ≡ s =
      subst (λ t. slug_chars [] false t ≡ s) (append-nil s) (slug_chars-again s false h []) in
    let nonempty : is_empty s ≡ false = is_empty_of_lt s long in
    rw (read, trim_end-Dashed s h, nonempty) refl

-- A slug is not empty, consists of lower-case ASCII letters, digits and dashes, starts and ends in no
-- dash and holds no two dashes in a row; and the slug of a slug is itself.
pub slugify_lem :
    (input : Text) → IsSlug (slugify input) × (slugify (slugify input) ≡ slugify input)
slugify_lem input = let h = slugify-IsSlug input in (h, slugify-of_IsSlug (slugify input) h)

-- No slug holds a tilde.
pub Dashed-NoTilde : {s : Text} {d : Bool} → Dashed s d → NoTilde s
Dashed-NoTilde empty = tt
Dashed-NoTilde {s = t} (letter {s} c h low e) =
    rw e
      (All-append (λ c. c ≢ 126) s (c ∷ []) (Dashed-NoTilde h) ((λ q. absurd (ground arith)), tt))
Dashed-NoTilde {s = t} (dash {s} h long e) =
    rw e
      (All-append (λ c. c ≢ 126) s (45 ∷ []) (Dashed-NoTilde h) ((λ q. absurd (ground arith)), tt))
