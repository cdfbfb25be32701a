-- ===== src/Base/Lists.antt =====
-- Lists measured and indexed by native numbers, under the library's names, and predicates on lists
-- by recursion.
use Prim.Native.Nat.{ℕ, zero, suc, ◌+◌, ◌-◌, min}
use mathlib.Core.Path.{◌≡◌, refl, ap, sym, subst}
use mathlib.Core.Logic.{◌≢◌, ◌⊎◌, inl, inr}
use mathlib.Core.Bool.{Bool, true, false, ◌&&◌, ◌||◌}
use mathlib.Core.List.{List, [], ◌∷◌, ◌++◌, map}
use native.Mathlib.Omega.{arith}
use omni_sem.Base.Tests.{if◌then◌else◌, Bool-cases}

module _ {ℓ} {A : Type ℓ} where
  abbrev pub length : List A → ℕ
  length [] = 0
  length (x ∷ xs) = suc (length xs)

  abbrev pub take : ℕ → List A → List A
  take zero xs = []
  take (suc n) [] = []
  take (suc n) (x ∷ xs) = x ∷ take n xs

  abbrev pub drop : ℕ → List A → List A
  drop zero xs = xs
  drop (suc n) [] = []
  drop (suc n) (x ∷ xs) = drop n xs

  abbrev pub any : (A → Bool) → List A → Bool
  any p [] = false
  any p (x ∷ xs) = p x || any p xs

  abbrev pub all : (A → Bool) → List A → Bool
  all p [] = true
  all p (x ∷ xs) = p x && all p xs

  abbrev pub filter : (A → Bool) → List A → List A
  filter p [] = []
  filter p (x ∷ xs) = if p x then x ∷ filter p xs else filter p xs

  abbrev pub is_empty : List A → Bool
  is_empty [] = true
  is_empty (x ∷ xs) = false

module _ {ℓ} {A : Type ℓ} where
  pub length-append : (xs ys : List A) → length (xs ++ ys) ≡ length xs + length ys
  length-append [] ys = omega arith
  length-append (x ∷ xs) ys = omega (arith, length-append xs ys)

  pub length-take : (n : ℕ) (xs : List A) → length (take n xs) ≡ min n (length xs)
  length-take zero xs = omega arith
  length-take (suc n) [] = omega arith
  length-take (suc n) (x ∷ xs) = omega (arith, length-take n xs)

  pub length-drop : (n : ℕ) (xs : List A) → length (drop n xs) ≡ length xs - n
  length-drop zero xs = omega arith
  length-drop (suc n) [] = omega arith
  length-drop (suc n) (x ∷ xs) = omega (arith, length-drop n xs)

  pub take-append-drop : (n : ℕ) (xs : List A) → take n xs ++ drop n xs ≡ xs
  take-append-drop zero xs = refl
  take-append-drop (suc n) [] = refl
  take-append-drop (suc n) (x ∷ xs) = ap (◌∷◌ x) (take-append-drop n xs)

module _ {ℓ κ} {A : Type ℓ} (P : A → Type κ) where
  abbrev pub All : List A → Type κ
  All [] = Unit
  All (x ∷ xs) = P x × All xs

  pub All-append : (xs ys : List A) → All xs → All ys → All (xs ++ ys)
  All-append [] ys h k = k
  All-append (x ∷ xs) ys (p, h) k = (p, All-append xs ys h k)

-- Membership, as data that can be matched.
pub data In {ℓ} {A : Type ℓ} (a : A) : List A → Type ℓ where
  here : {xs : List A} → In a (a ∷ xs)
  there : {x : A} {xs : List A} → In a xs → In a (x ∷ xs)

module _ {ℓ} {A : Type ℓ} where
  pub In-append_left : {a : A} (xs ys : List A) → In a xs → In a (xs ++ ys)
  In-append_left _ ys here = here
  In-append_left _ ys (there {xs} h) = there (In-append_left xs ys h)

  pub In-append_right : {a : A} (xs ys : List A) → In a ys → In a (xs ++ ys)
  In-append_right [] ys h = h
  In-append_right (x ∷ xs) ys h = there (In-append_right xs ys h)

  pub In-append : {a : A} (xs ys : List A) → In a (xs ++ ys) → In a xs ⊎ In a ys
  In-append [] ys m = inr m
  In-append (x ∷ xs) ys here = inl here
  In-append (x ∷ xs) ys (there m) = elim (In-append xs ys m) [
    | inl early ↦ inl (there early)
    | inr late ↦ inr late
  ]

module _ {ℓ κ μ} {A : Type ℓ} {P : A → Type κ} {Q : A → Type μ} (f : (x : A) → P x → Q x) where
  pub All-imp : (xs : List A) → All P xs → All Q xs
  All-imp [] h = tt
  All-imp (x ∷ xs) (p, h) = (f x p, All-imp xs h)

module _ {ℓ κ} {A : Type ℓ} (P : A → Type κ) where
  pub All-In : {a : A} {xs : List A} → All P xs → In a xs → P a
  All-In h here = h.0
  All-In h (there m) = All-In h.1 m

module _ {ℓ κ μ} {A : Type ℓ} (P : A → Type κ) (Q : A → Type μ) where
  pub All-both : (xs : List A) → All P xs → All Q xs → All (λ x. P x × Q x) xs
  All-both [] h k = tt
  All-both (x ∷ xs) (p, h) (q, k) = ((p, q), All-both xs h k)

module _ {ℓ} {A : Type ℓ} where
  pub In-cons : {a x : A} {xs : List A} → In a (x ∷ xs) → (a ≡ x) ⊎ In a xs
  In-cons here = inl refl
  In-cons (there m) = inr m

module _ {ℓ} {A : Type ℓ} (p : A → Bool) where
  pub In-filter : {a : A} (xs : List A) → In a (filter p xs) → In a xs × (p a ≡ true)
  In-filter [] h = elim h [ ]
  In-filter {a} (x ∷ xs) h = elim (Bool-cases (p x)) [
    | inl kept ↦ elim (In-cons (rw kept at h)) [
      | inl same ↦
          (subst (λ y. In y (x ∷ xs)) (sym same) here, subst (λ y. p y ≡ true) (sym same) kept)
      | inr later ↦ let (m, q) = In-filter xs later in (there m, q)
    ]
    | inr gone ↦ let (m, q) = In-filter xs (rw gone at h) in (there m, q)
  ]

  pub filter-In : {a : A} {xs : List A} → In a xs → p a ≡ true → In a (filter p xs)
  filter-In (here {xs}) h = rw h here
  filter-In (there {x} {xs} m) h = elim (Bool-cases (p x)) [
    | inl kept ↦ rw kept (there (filter-In m h))
    | inr gone ↦ rw gone (filter-In m h)
  ]

module _ {ℓ κ} {A : Type ℓ} (P : A → Type κ) (p : A → Bool) where
  pub All-filter : (xs : List A) → All P xs → All P (filter p xs)
  All-filter [] h = tt
  All-filter (x ∷ xs) (q, h) = elim (Bool-cases (p x)) [
    | inl kept ↦ rw kept (q, All-filter xs h)
    | inr gone ↦ rw gone (All-filter xs h)
  ]

-- The keys of the members differ from each other.
abbrev pub Distinct {ℓ κ} : {A : Type ℓ} {B : Type κ} → (A → B) → List A → Type κ
Distinct key [] = Unit
Distinct key (x ∷ xs) = All (λ y. key y ≢ key x) xs × Distinct key xs

module _ {ℓ κ} {A : Type ℓ} (P : A → Type κ) where
  pub All-of_In : (xs : List A) → ((x : A) → In x xs → P x) → All P xs
  All-of_In [] f = tt
  All-of_In (x ∷ xs) f = (f x here, All-of_In xs (λ y m. f y (there m)))

module _ {ℓ κ} {A : Type ℓ} {B : Type κ} (f : A → B) where
  pub In-map : {b : B} (xs : List A) → In b (map f xs) → (a : A) × In a xs × (b ≡ f a)
  In-map [] m = elim m [ ]
  In-map (x ∷ xs) m = elim (In-cons m) [
    | inl e ↦ (x, here, e)
    | inr later ↦ let (a, m', e) = In-map xs later in (a, there m', e)
  ]

  pub map-In : {a : A} {xs : List A} → In a xs → In (f a) (map f xs)
  map-In here = here
  map-In (there m) = there (map-In m)

  pub length-map : (xs : List A) → length (map f xs) ≡ length xs
  length-map [] = refl
  length-map (x ∷ xs) = ap suc (length-map xs)

module _ {ℓ κ μ} {A : Type ℓ} {B : Type κ} (f : A → B) where
  pub All-map : (P : B → Type μ) (xs : List A) → All (λ x. P (f x)) xs → All P (map f xs)
  All-map P [] h = tt
  All-map P (x ∷ xs) (p, h) = (p, All-map P xs h)

  pub Distinct-map :
      {C : Type μ} (key : B → C) (xs : List A)
      → Distinct (λ x. key (f x)) xs
      → Distinct key (map f xs)
  Distinct-map key [] d = tt
  Distinct-map key (x ∷ xs) (a, d) = (All-map (λ y. key y ≢ key (f x)) xs a, Distinct-map key xs d)

module _ {ℓ κ} {A : Type ℓ} {B : Type κ} (key : A → B) where
  pub Distinct-snoc :
      (xs : List A) (x : A)
      → All (λ y. key x ≢ key y) xs
      → Distinct key xs
      → Distinct key (xs ++ x ∷ [])
  Distinct-snoc [] x a d = (tt, tt)
  Distinct-snoc (y ∷ xs) x (ne, a) (b, d) =
      (All-append (λ z. key z ≢ key y) xs (x ∷ []) b (ne, tt), Distinct-snoc xs x a d)
