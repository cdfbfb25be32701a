-- ===== src/Retrieval/Fusion/Entries.antt =====
-- The map of `rrf_merge` as an association list: its keys stay distinct, and a lookup finds what is
-- there.
use omni_sem.Base.{
  ◌+◌, ◌≤◌, ◌≡◌, ◌≢◌, sym, ap, subst, true, some, List, [], ◌∷◌, Text, length, text_eq, text_eq_iff,
  arith, inl, inr, Bool-cases, In, here, there, In-cons, All, All-In, Distinct,
}
use omni_sem.Retrieval.Fusion.{Acc, lookup, set_entry}

abbrev pub Keyed : {F : Type 0} → List (Text × Acc F) → Type 0
Keyed best = Distinct (λ e. e.0) best

module _ {F : Type 0} where
  All-set_entry :
      (P : Text × Acc F → Type 0) (key : Text) (acc : Acc F) (best : List (Text × Acc F))
      → P (key, acc)
      → ((k : Text) (old : Acc F) → k ≡ key → P (k, old) → P (k, acc))
      → All P best
      → All P (set_entry key acc best)
  unfolding set_entry
  All-set_entry P key acc [] p f h = (p, tt)
  All-set_entry P key acc ((k, old) ∷ best) p f (q, h) = elim (Bool-cases (text_eq k key)) [
    | inl same ↦ rw same (f k old ((text_eq_iff k key).0 same) q, h)
    | inr other ↦ rw other (q, All-set_entry P key acc best p f h)
  ]

  pub Keyed-set_entry :
      (key : Text) (acc : Acc F) (best : List (Text × Acc F))
      → Keyed best
      → Keyed (set_entry key acc best)
  unfolding set_entry
  Keyed-set_entry key acc [] d = (tt, tt)
  Keyed-set_entry key acc ((k, old) ∷ best) (a, d) = elim (Bool-cases (text_eq k key)) [
    | inl same ↦ rw same (a, d)
    | inr other ↦ rw other (
      All-set_entry (λ e. e.0 ≢ k) key acc best
          (λ e. absurd (ground (arith, (text_eq_iff k key).1 (sym e)))) (λ j old' same p. p) a,
      Keyed-set_entry key acc best d,
    )
  ]

  pub In-lookup :
      {key : Text} {acc : Acc F} (best : List (Text × Acc F))
      → Keyed best
      → In (key, acc) best
      → lookup key best ≡ some acc
  unfolding lookup
  In-lookup [] d m = elim m [ ]
  In-lookup {key} {acc} ((k, old) ∷ best) (a, d) m = elim (In-cons m) [
    | inl e ↦
        let same : text_eq k key ≡ true = (text_eq_iff k key).1 (ap (λ p. p.0) (sym e)) in
        rw same (ap (λ p. some (p.1)) (sym e))
    | inr later ↦ elim (Bool-cases (text_eq k key)) [
      | inl same ↦ absurd (All-In (λ e. e.0 ≢ k) a later (sym ((text_eq_iff k key).0 same)))
      | inr other ↦ rw other (In-lookup best d later)
    ]
  ]

  pub lookup-In :
      {key : Text} {acc : Acc F} (best : List (Text × Acc F))
      → lookup key best ≡ some acc
      → In (key, acc) best
  unfolding lookup
  lookup-In [] h = cc
  lookup-In {key} {acc} ((k, old) ∷ best) h = elim (Bool-cases (text_eq k key)) [
    | inl same ↦
        let here' : In (k, old) ((k, old) ∷ best) = here in
        let e : some old ≡ some acc = rw same at h in
        let e' : old ≡ acc = cc in
        subst (λ j. In (j, acc) ((k, old) ∷ best)) ((text_eq_iff k key).0 same)
          (subst (λ c. In (k, c) ((k, old) ∷ best)) e' here')
    | inr other ↦ there (lookup-In best (rw other at h))
  ]

  pub length-set_entry :
      (key : Text) (acc : Acc F) (best : List (Text × Acc F))
      → length (set_entry key acc best) ≤ length best + 1
  unfolding set_entry
  length-set_entry key acc [] = omega arith
  length-set_entry key acc ((k, old) ∷ best) = ground (arith, length-set_entry key acc best)
