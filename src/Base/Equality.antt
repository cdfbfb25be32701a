-- ===== src/Base/Equality.antt =====
-- Types whose equality the program tests, and the set operations that rest on that test.
use Prim.Native.Nat.{ℕ}
use mathlib.Core.Path.{◌≡◌, refl, sym, subst}
use mathlib.Core.Logic.{◌≢◌, ◌↔◌, ◌⊎◌, inl, inr}
use mathlib.Core.Bool.{Bool, true, false, ◌||◌}
use mathlib.Core.List.{List, [], ◌∷◌}
use native.Mathlib.Omega.{arith}
use omni_sem.Base.Tests.{◌==◌, ==_iff, Bool-cases}
use omni_sem.Base.Strings.{Text, text_eq, text_eq_iff}
use omni_sem.Base.Lists.{In, here, there}

pub record Eq {ℓ} (A : Type ℓ) : Type ℓ where
  pub beq : A → A → Bool
  pub beq_iff : (a b : A) → (beq a b ≡ true) ↔ (a ≡ b)

instance abbrev pub nat_eq : Eq ℕ
nat_eq = record { beq = ◌==◌; beq_iff = ==_iff }

instance abbrev pub string_eq : Eq Text
string_eq = record { beq = text_eq; beq_iff = text_eq_iff }

module _ {ℓ} {A : Type ℓ} ⦃e : Eq A⦄ where
  abbrev pub contains : List A → A → Bool
  contains [] a = false
  contains (x ∷ xs) a = e.beq x a || contains xs a

  pub contains-In : (xs : List A) (a : A) → contains xs a ≡ true → In a xs
  contains-In [] a h = cc
  contains-In (x ∷ xs) a h = elim (Bool-cases (e.beq x a)) [
    | inl same ↦ subst (λ y. In y (x ∷ xs)) ((e.beq_iff x a).0 same) here
    | inr other ↦ there (contains-In xs a (ground arith))
  ]

  pub In-contains : {a : A} {xs : List A} → In a xs → contains xs a ≡ true
  In-contains {a} here = rw ((e.beq_iff a a).1 refl) refl
  In-contains {a} (there {x} {xs} h) = ground (arith, In-contains h)

  pub contains-cons_false :
      (x : A) (xs : List A) (a : A)
      → contains (x ∷ xs) a ≡ false
      → (contains xs a ≡ false) × (a ≢ x)
  contains-cons_false x xs a h = elim (Bool-cases (e.beq x a)) [
    | inl same ↦ absurd (ground arith)
    | inr other ↦ (ground arith, λ p. absurd (ground (arith, (e.beq_iff x a).1 (sym p))))
  ]

  pub contains-cons_of_ne :
      (x : A) (xs : List A) (a : A) → contains xs a ≡ false → a ≢ x → contains (x ∷ xs) a ≡ false
  contains-cons_of_ne x xs a h ne = elim (Bool-cases (e.beq x a)) [
    | inl same ↦ absurd (ne (sym ((e.beq_iff x a).0 same)))
    | inr other ↦ rw other h
  ]

  pub contains-cons_true :
      (x : A) (xs : List A) (a : A) → contains (x ∷ xs) a ≡ true → (x ≡ a) ⊎ (contains xs a ≡ true)
  contains-cons_true x xs a h = elim (Bool-cases (e.beq x a)) [
    | inl same ↦ inl ((e.beq_iff x a).0 same)
    | inr other ↦ inr (rw other at h)
  ]
