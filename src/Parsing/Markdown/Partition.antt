-- ===== src/Parsing/Markdown/Partition.antt =====
-- What `split_frontmatter` cuts a text into, and that it finds the frontmatter of a text that has one.
use omni_sem.Base.{
  ℕ, ◌≡◌, refl, sym, ◌∙◌, ap, ◌⊎◌, inl, inr, true, ◌||◌, none, some, [], ◌∷◌, ◌++◌, Text, codes,
  text_eq, text_eq_iff, is_empty, arith, Bool-cases, Option-cases, strip_prefix, str_starts_with,
  strip_prefix-append,
}
use omni_sem.Parsing.Markdown.Frontmatter.{
  closes, after_newline, closing_here, find_closing, after_opening, split_frontmatter,
}

-- A newline of either kind.
abbrev pub IsNewline : Text → Type 0
IsNewline t = (t ≡ codes "\n") ⊎ (t ≡ codes "\r\n")

-- What stands behind a closing fence: a newline and any body, or the end of the text, which may have a
-- carriage return.
abbrev pub Ends : Text → Text → Type 0
Ends newline body = IsNewline newline ⊎ ((newline ≡ []) × ((body ≡ []) ⊎ (body ≡ codes "\r")))

abbrev pub fence : Text
fence = codes "\n---"

after_newline-Ends :
    (closing : Text)
    → closes closing ≡ true
    → (newline : Text) × Ends newline (after_newline closing)
      × (closing ≡ newline ++ after_newline closing)
unfolding after_newline closes str_starts_with
after_newline-Ends closing h = elim (Option-cases (strip_prefix (codes "\r\n") closing)) [
  | inr (body, e) ↦
      rw e (codes "\r\n", inl (inr refl), strip_prefix-append (codes "\r\n") closing body e)
  | inl e ↦ elim (Option-cases (strip_prefix (codes "\n") closing)) [
    | inr (body, f) ↦
        rw (e, f) (codes "\n", inl (inl refl), strip_prefix-append (codes "\n") closing body f)
    | inl f ↦ rw (e, f) ([], inr (refl, ended closing (rw (e, f) at h)), refl)
  ]
]
  where
    ended : (t : Text) → is_empty t || text_eq t (codes "\r") ≡ true → (t ≡ []) ⊎ (t ≡ codes "\r")
    ended [] h = inl refl
    ended (c ∷ t) h = inr ((text_eq_iff (c ∷ t) (codes "\r")).0 h)

closing_here-some :
    (rest closing : Text)
    → closing_here rest ≡ some closing
    → (rest ≡ fence ++ closing) × (closes closing ≡ true)
unfolding closing_here
closing_here-some rest closing h = elim (Option-cases (strip_prefix (codes "\n---") rest)) [
  | inl e ↦ let f : none ≡ some closing = rw e at h in cc
  | inr (tail, e) ↦ elim (Bool-cases (closes tail)) [
    | inl yes' ↦
        let f : some tail ≡ some closing = rw (e, yes') at h in
        let g : tail ≡ closing = cc in
        (strip_prefix-append fence rest closing (rw g at e), rw g at yes')
    | inr no' ↦ let f : none ≡ some closing = rw (e, no') at h in cc
  ]
]

-- The text before the fence, the fence and what follows it.
abbrev pub Closed : Text → Text → Text → Type 0
Closed rest front body =
    (newline : Text) × Ends newline body × (rest ≡ front ++ (fence ++ (newline ++ body)))

find_closing-Closed :
    (rest front body : Text) → find_closing rest ≡ some (front, body) → Closed rest front body
unfolding find_closing
find_closing-Closed [] front body h = cc
find_closing-Closed (c ∷ rest) front body h = elim (Option-cases (closing_here (c ∷ rest))) [
  | inr (closing, e) ↦
      let f : some ([], after_newline closing) ≡ some (front, body) = rw (e, find_closing) at h in
      let g : [] ≡ front = cc in
      let g' : after_newline closing ≡ body = cc in
      let (whole, closed) = closing_here-some (c ∷ rest) closing e in
      let (newline, ends, parts) = after_newline-Ends closing closed in
      rw (sym g, sym g') (newline, ends, whole ∙ ap (λ t. fence ++ t) parts)
  | inl e ↦ elim (Option-cases (find_closing rest)) [
    | inl f ↦ let g : none ≡ some (front, body) = rw (e, f, find_closing) at h in cc
    | inr ((front', body'), f) ↦
        let g : some (c ∷ front', body') ≡ some (front, body) = rw (e, f, find_closing) at h in
        let g' : c ∷ front' ≡ front = cc in
        let g'' : body' ≡ body = cc in
        let (newline, ends, parts) = find_closing-Closed rest front' body' f in
        rw (sym g', sym g'') (newline, ends, ap (◌∷◌ c) parts)
  ]
]

-- No fence starts in the text.
abbrev pub NoFence : Text → Type 0
NoFence [] = Unit
NoFence (c ∷ t) = (strip_prefix fence (c ∷ t) ≡ none) × NoFence t

-- A text without a fence at its start has none there when a newline and more follow.
strip_prefix-newline :
    (c : ℕ) (t rest : Text)
    → strip_prefix fence (c ∷ t) ≡ none
    → strip_prefix fence ((c ∷ t) ++ (10 ∷ rest)) ≡ none
unfolding strip_prefix
strip_prefix-newline c [] rest h = ground (arith, h)
strip_prefix-newline c (c2 ∷ []) rest h = ground (arith, h)
strip_prefix-newline c (c2 ∷ c3 ∷ []) rest h = ground (arith, h)
strip_prefix-newline c (c2 ∷ c3 ∷ c4 ∷ t) rest h = ground (arith, h)

after_newline-append :
    (newline body : Text)
    → IsNewline newline
    → (closes (newline ++ body) ≡ true) × (after_newline (newline ++ body) ≡ body)
unfolding after_newline closes str_starts_with strip_prefix
after_newline-append newline body (inl e) = rw e (refl, refl)
after_newline-append newline body (inr e) = rw e (refl, refl)

closing_here-newline :
    (c : ℕ) (t rest : Text)
    → strip_prefix fence (c ∷ t) ≡ none
    → closing_here ((c ∷ t) ++ (10 ∷ rest)) ≡ none
unfolding closing_here
closing_here-newline c t rest h = rw (strip_prefix-newline c t rest h, closing_here) refl

closing_here-fence :
    (newline body : Text)
    → IsNewline newline
    → closing_here (fence ++ (newline ++ body)) ≡ some (newline ++ body)
unfolding closing_here strip_prefix closes str_starts_with
closing_here-fence newline body (inl e) = rw e refl
closing_here-fence newline body (inr e) = rw e refl

find_closing-append :
    (front newline body : Text)
    → NoFence front
    → IsNewline newline
    → find_closing (front ++ (fence ++ (newline ++ body))) ≡ some (front, body)
unfolding find_closing
find_closing-append [] newline body h n =
    let here = closing_here-fence newline body n in
    rw (here, find_closing, (after_newline-append newline body n).1) refl
find_closing-append (c ∷ front) newline body (h, k) n =
    let later = find_closing-append front newline body k n in
    rw (closing_here-newline c front (codes "---" ++ (newline ++ body)) h, later, find_closing) refl

after_opening-append :
    (opening rest : Text)
    → IsNewline opening
    → after_opening (codes "---" ++ (opening ++ rest)) ≡ some rest
unfolding after_opening strip_prefix
after_opening-append opening rest (inl e) = rw e refl
after_opening-append opening rest (inr e) = rw e refl

-- The input opens with `---` and a newline.
abbrev pub Opened : Text → Text → Text → Type 0
Opened input opening rest = IsNewline opening × (input ≡ codes "---" ++ (opening ++ rest))

after_opening-Opened :
    (input rest : Text)
    → after_opening input ≡ some rest
    → (opening : Text) × Opened input opening rest
unfolding after_opening
after_opening-Opened input rest h = elim (Option-cases (strip_prefix (codes "---") input)) [
  | inl e ↦ let f : none ≡ some rest = rw (e, after_opening) at h in cc
  | inr (tail, e) ↦
      let whole = strip_prefix-append (codes "---") input tail e in
      elim (Option-cases (strip_prefix (codes "\n") tail)) [
        | inr (rest', f) ↦
            let g : some rest' ≡ some rest = rw (e, f, after_opening) at h in
            let g' : rest' ≡ rest = cc in
            let parts = strip_prefix-append (codes "\n") tail rest (rw g' at f) in
            (codes "\n", (inl refl, whole ∙ ap (λ t. codes "---" ++ t) parts))
        | inl f ↦
            let g : strip_prefix (codes "\r\n") tail ≡ some rest = rw (e, f, after_opening) at h in
            let parts = strip_prefix-append (codes "\r\n") tail rest g in
            (codes "\r\n", (inr refl, whole ∙ ap (λ t. codes "---" ++ t) parts))
      ]
]

-- `split_frontmatter` either finds no frontmatter, and the body is the whole input, or the input is
-- `---`, a newline, the frontmatter, a newline and `---`, a newline and the body, where the end of the
-- text may take the place of the last newline.
pub split_frontmatter_lem :
    (input : Text)
    → (split_frontmatter input ≡ (none, input))
      ⊎ ((opening : Text) × (rest : Text) × (front : Text) × (body : Text) × (split_frontmatter
              input
            ≡ (some front, body))
          × Opened input opening rest
          × Closed rest front body)
unfolding split_frontmatter
split_frontmatter_lem input = elim (Option-cases (after_opening input)) [
  | inl e ↦ inl (rw e refl)
  | inr (rest, e) ↦ elim (Option-cases (find_closing rest)) [
    | inl f ↦ inl (rw (e, f) refl)
    | inr ((front, body), f) ↦
        let (opening, opened) = after_opening-Opened input rest e in
        inr (
          opening,
          rest,
          front,
          body,
          rw (e, f) refl,
          opened,
          find_closing-Closed rest front body f,
        )
  ]
]

-- `split_frontmatter` finds in a text that is `---`, a newline, a front text in which no newline has
-- `---` behind it, a newline and `---`, a newline and a body, exactly the front text and the body,
-- where each newline may have a carriage return, the one before the closing `---` excepted.
pub split_frontmatter-append :
    (opening front newline body : Text)
    → IsNewline opening
    → NoFence front
    → IsNewline newline
    → split_frontmatter (codes "---" ++ (opening ++ (front ++ (fence ++ (newline ++ body)))))
      ≡ (some front, body)
unfolding split_frontmatter
split_frontmatter-append opening front newline body o h n =
    let rest = front ++ (fence ++ (newline ++ body)) in
    rw
      (
        after_opening-append opening rest o,
        find_closing-append front newline body h n,
        split_frontmatter,
      )
      refl
