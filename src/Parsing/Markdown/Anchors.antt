-- ===== src/Parsing/Markdown/Anchors.antt =====
-- The anchors that `push` gives are told apart by the base and its count.
use omni_sem.Base.{
  ℕ, ◌+◌, ◌≤◌, ◌≡◌, refl, subst, sym, inl, inr, [], ◌∷◌, ◌++◌, Text, decimal, decimal-injective,
  text_eq_iff, ◌==◌, arith, Bool-cases,
}
use omni_sem.Parsing.Markdown.{AnchorCounts, count_of, count_up, numbered_anchor}
use omni_sem.Parsing.Markdown.Slug.{NoTilde}

pub count_of-count_up :
    (base : Text) (m : AnchorCounts) → count_of base (count_up base m) ≡ count_of base m + 1
unfolding count_of count_up
count_of-count_up base [] = rw ((text_eq_iff base base).1 refl) refl
count_of-count_up base ((key, n) ∷ m) = ground (arith, count_of-count_up base m)

pub count_of_le : (b base : Text) (m : AnchorCounts) → count_of b m ≤ count_of b (count_up base m)
unfolding count_of count_up
count_of_le b base [] = omega arith
count_of_le b base ((key, n) ∷ m) = ground (arith, count_of_le b base m)

tilde_absurd : (b t : Text) → NoTilde (b ++ 126 ∷ t) → ⊥
tilde_absurd [] t h = absurd (h.0 refl)
tilde_absurd (c ∷ b) t h = tilde_absurd b t h.1

tilde_split :
    (b b' t t' : Text)
    → NoTilde b
    → NoTilde b'
    → b ++ 126 ∷ t ≡ b' ++ 126 ∷ t'
    → (b ≡ b') × (t ≡ t')
tilde_split [] [] t t' h h' e = (refl, cc)
tilde_split [] (c ∷ b') t t' h (ne, h') e = absurd (ne (cc))
tilde_split (c ∷ b) [] t t' (ne, h) h' e = absurd (ne (cc))
tilde_split (c ∷ b) (d ∷ b') t t' (ne, h) (ne', h') e =
    let (p, q) = tilde_split b b' t t' h h' (cc) in (cc, q)

pub numbered_anchor-injective :
    (b b' : Text) (k k' : ℕ)
    → NoTilde b
    → NoTilde b'
    → numbered_anchor b k ≡ numbered_anchor b' k'
    → (b ≡ b') × (k ≡ k')
unfolding numbered_anchor
numbered_anchor-injective b b' k k' h h' e = elim (Bool-cases (k == 1)) [
  | inl p ↦ elim (Bool-cases (k' == 1)) [
    | inl q ↦ (rw (p, q) at e, ground arith)
    | inr q ↦ absurd (tilde_absurd b' (decimal k') (subst NoTilde (rw (p, q) at e) h))
  ]
  | inr p ↦ elim (Bool-cases (k' == 1)) [
    | inl q ↦ absurd (tilde_absurd b (decimal k) (subst NoTilde (sym (rw (p, q) at e)) h'))
    | inr q ↦
        let (x, y) = tilde_split b b' (decimal k) (decimal k') h h' (rw (p, q) at e) in
        (x, decimal-injective k k' y)
  ]
]
