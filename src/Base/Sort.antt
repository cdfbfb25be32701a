-- ===== src/Base/Sort.antt =====
-- Comparisons: `Ordering::then_with`, the order of texts, and the stable `sort_by` of a slice.
use Prim.Native.Nat.{compare, Ordering}
use mathlib.Core.Path.{◌≡◌}
use mathlib.Core.List.{List, [], ◌∷◌}
use mathlib.Core.Path.{refl, ap, sym, ◌∙◌}
use mathlib.Core.Logic.{◌≢◌}
use Prim.Native.Nat.{suc}
use omni_sem.Base.Strings.{Text}
use omni_sem.Base.Lists.{In, here, there, All, Distinct, length}

abbrev pub then_with : Ordering → Ordering → Ordering
then_with Ordering.eq o = o
then_with Ordering.lt o = Ordering.lt
then_with Ordering.gt o = Ordering.gt

abbrev pub reverse_order : Ordering → Ordering
reverse_order Ordering.lt = Ordering.gt
reverse_order Ordering.eq = Ordering.eq
reverse_order Ordering.gt = Ordering.lt

-- UTF-8 keeps the order of code points.
unfoldable pub compare_text : Text → Text → Ordering
compare_text [] [] = Ordering.eq
compare_text [] (d ∷ t) = Ordering.lt
compare_text (c ∷ s) [] = Ordering.gt
compare_text (c ∷ s) (d ∷ t) = then_with (compare c d) (compare_text s t)

module _ {ℓ} {A : Type ℓ} (cmp : A → A → Ordering) where
  -- `x` goes before the first member that is not less than it, so equal members keep their order.
  unfoldable pub insert_by : A → List A → List A
  insert_by x [] = x ∷ []
  insert_by x (y ∷ ys) = elim (cmp x y) [ Ordering.gt ↦ y ∷ insert_by x ys | _ ↦ x ∷ y ∷ ys ]

  unfoldable pub sort_by : List A → List A
  sort_by [] = []
  sort_by (x ∷ xs) = insert_by x (sort_by xs)

  module _ {κ} (P : A → Type κ) where
    All-insert_by : (x : A) (ys : List A) → P x → All P ys → All P (insert_by x ys)
    unfolding insert_by
    All-insert_by x [] p h = (p, tt)
    All-insert_by x (y ∷ ys) p (q, h) =
        elim (cmp x y)
          as (λ o. All P (elim o [ Ordering.gt ↦ y ∷ insert_by x ys | _ ↦ x ∷ y ∷ ys ])) [
            | Ordering.lt ↦ (p, (q, h))
            | Ordering.eq ↦ (p, (q, h))
            | Ordering.gt ↦ (q, All-insert_by x ys p h)
          ]

    pub All-sort_by : (xs : List A) → All P xs → All P (sort_by xs)
    unfolding sort_by
    All-sort_by [] h = tt
    All-sort_by (x ∷ xs) (p, h) = All-insert_by x (sort_by xs) p (All-sort_by xs h)

  length-insert_by : (x : A) (ys : List A) → length (insert_by x ys) ≡ suc (length ys)
  unfolding insert_by
  length-insert_by x [] = refl
  length-insert_by x (y ∷ ys) =
      elim (cmp x y)
        as (λ o.
          length (elim o [ Ordering.gt ↦ y ∷ insert_by x ys | _ ↦ x ∷ y ∷ ys ])
          ≡ suc (suc (length ys))) [
            | Ordering.lt ↦ refl
            | Ordering.eq ↦ refl
            | Ordering.gt ↦ ap suc (length-insert_by x ys)
          ]

  pub length-sort_by : (xs : List A) → length (sort_by xs) ≡ length xs
  unfolding sort_by
  length-sort_by [] = refl
  length-sort_by (x ∷ xs) = length-insert_by x (sort_by xs) ∙ ap suc (length-sort_by xs)

  insert_by-here : (x : A) (ys : List A) → In x (insert_by x ys)
  unfolding insert_by
  insert_by-here x [] = here
  insert_by-here x (y ∷ ys) =
      elim (cmp x y) as (λ o. In x (elim o [ Ordering.gt ↦ y ∷ insert_by x ys | _ ↦ x ∷ y ∷ ys ])) [
        | Ordering.lt ↦ here
        | Ordering.eq ↦ here
        | Ordering.gt ↦ there (insert_by-here x ys)
      ]

  insert_by-there : {a : A} (x : A) {ys : List A} → In a ys → In a (insert_by x ys)
  unfolding insert_by
  insert_by-there {a} x (here {xs = ys}) =
      elim (cmp x a) as (λ o. In a (elim o [ Ordering.gt ↦ a ∷ insert_by x ys | _ ↦ x ∷ a ∷ ys ])) [
        | Ordering.lt ↦ there here
        | Ordering.eq ↦ there here
        | Ordering.gt ↦ here
      ]
  insert_by-there {a} x (there {x = y} {xs = ys} m) =
      elim (cmp x y) as (λ o. In a (elim o [ Ordering.gt ↦ y ∷ insert_by x ys | _ ↦ x ∷ y ∷ ys ])) [
        | Ordering.lt ↦ there (there m)
        | Ordering.eq ↦ there (there m)
        | Ordering.gt ↦ there (insert_by-there x m)
      ]

  pub sort_by-In : {a : A} {xs : List A} → In a xs → In a (sort_by xs)
  unfolding sort_by
  sort_by-In {a} (here {xs = ys}) = insert_by-here a (sort_by ys)
  sort_by-In (there {x = y} m) = insert_by-there y (sort_by-In m)

  module _ {κ} {B : Type κ} (key : A → B) where
    Distinct-insert_by :
        (x : A) (ys : List A)
        → All (λ y. key y ≢ key x) ys
        → Distinct key ys
        → Distinct key (insert_by x ys)
    unfolding insert_by
    Distinct-insert_by x [] a d = (tt, tt)
    Distinct-insert_by x (y ∷ ys) (ne, a) (b, d) =
        elim (cmp x y)
          as (λ o. Distinct key (elim o [ Ordering.gt ↦ y ∷ insert_by x ys | _ ↦ x ∷ y ∷ ys ])) [
            | Ordering.lt ↦ ((ne, a), (b, d))
            | Ordering.eq ↦ ((ne, a), (b, d))
            | Ordering.gt ↦ (
              All-insert_by (λ z. key z ≢ key y) x ys (λ e. ne (sym e)) b,
              Distinct-insert_by x ys a d,
            )
          ]

    pub Distinct-sort_by : (xs : List A) → Distinct key xs → Distinct key (sort_by xs)
    unfolding sort_by
    Distinct-sort_by [] d = tt
    Distinct-sort_by (x ∷ xs) (a, d) =
        Distinct-insert_by x (sort_by xs) (All-sort_by (λ y. key y ≢ key x) xs a)
          (Distinct-sort_by xs d)
