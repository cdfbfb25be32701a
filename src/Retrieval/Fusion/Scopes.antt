-- ===== src/Retrieval/Fusion/Scopes.antt =====
-- Fusion adds no sensitivity scope that no candidate has.
use omni_sem.Base.{
  ℕ, ◌+◌, inl, inr, Option, none, some, List, [], ◌∷◌, Text, leb, text_eq, if◌then◌else◌, map,
  Bool-cases, if-Holds, All, All-map, All-sort_by, sort_by,
}
use omni_sem.Domain.{RetrievalHit, SensitivityScope}
use omni_sem.Retrieval.Env.{Floats}
use omni_sem.Retrieval.Fusion.{
  reciprocal_rank, max_fusion_candidates, is_local, Acc, lookup, set_entry, merge_signals,
  first_acc, accumulate, merge_hit, merge_list, merge_lists, compare_acc, finish, rrf_merge,
}

module _ {F : Type 0} (floats : Floats F) (P : Option SensitivityScope → Type 0) where
  -- The scope of a hit, and that of an entry.
  abbrev pub OfHit : RetrievalHit F → Type 0
  OfHit hit = P hit.sensitivity_scope

  abbrev OfEntry : Text × Acc F → Type 0
  OfEntry (key, acc) = P acc.hit.sensitivity_scope

  abbrev OfOption : Option (Acc F) → Type 0
  OfOption none = Unit
  OfOption (some acc) = P acc.hit.sensitivity_scope

  lookup-OfOption :
      (key : Text) (best : List (Text × Acc F)) → All OfEntry best → OfOption (lookup key best)
  unfolding lookup
  lookup-OfOption key [] h = tt
  lookup-OfOption key ((k, acc) ∷ best) (p, h) = elim (Bool-cases (text_eq k key)) [
    | inl same ↦ rw (lookup, same) p
    | inr other ↦ rw (lookup, other) (lookup-OfOption key best h)
  ]

  set_entry-OfEntry :
      (key : Text) (acc : Acc F) (best : List (Text × Acc F))
      → P acc.hit.sensitivity_scope
      → All OfEntry best
      → All OfEntry (set_entry key acc best)
  unfolding set_entry
  set_entry-OfEntry key acc [] p h = (p, tt)
  set_entry-OfEntry key acc ((k, old) ∷ best) p (q, h) = elim (Bool-cases (text_eq k key)) [
    | inl same ↦ rw (set_entry, same) (p, h)
    | inr other ↦ rw (set_entry, other) (q, set_entry-OfEntry key acc best p h)
  ]

  accumulate-OfHit :
      (o : Option (Acc F)) (rank : ℕ) (hit : RetrievalHit F)
      → OfOption o
      → OfHit hit
      → P (accumulate floats o rank hit).hit.sensitivity_scope
  unfolding accumulate first_acc merge_signals
  accumulate-OfHit none rank hit h p = p
  accumulate-OfHit (some existing) rank hit h p =
      let contrib = reciprocal_rank floats rank in
      let local = is_local hit.origin in
      let OfAcc = λ (acc : Acc F). P acc.hit.sensitivity_scope in
      let summed = record existing { score = floats.add existing.score contrib } in
      let merged = record summed { hit = merge_signals existing.hit hit } in
      if-Holds OfAcc existing.local (if local then merged else existing)
        (if local then first_acc floats hit contrib else summed)
        (if-Holds OfAcc local merged existing h h)
        (if-Holds OfAcc local (first_acc floats hit contrib) summed p h)

  merge_list-OfEntry :
      (best : List (Text × Acc F)) (admitted rank : ℕ) (hits : List (RetrievalHit F))
      → All OfEntry best
      → All OfHit hits
      → All OfEntry (merge_list floats best admitted rank hits).0
  unfolding merge_list merge_hit
  merge_list-OfEntry best admitted rank [] h p = h
  merge_list-OfEntry best admitted rank (hit ∷ hits) h (q, p) =
      let merged =
        set_entry-OfEntry hit.text_hash (accumulate floats (lookup hit.text_hash best) rank hit)
          best
          (accumulate-OfHit (lookup hit.text_hash best) rank hit
            (lookup-OfOption hit.text_hash best h) q)
          h in
      elim (Bool-cases (leb max_fusion_candidates admitted)) [
        | inl full ↦ rw (merge_list, full) h
        | inr free ↦
            rw (merge_list, free)
              (merge_list-OfEntry (merge_hit floats best rank hit) (admitted + 1) (rank + 1) hits
                merged p)
      ]

  merge_lists-OfEntry :
      (best : List (Text × Acc F)) (admitted : ℕ) (lists : List (List (RetrievalHit F)))
      → All OfEntry best
      → All (All OfHit) lists
      → All OfEntry (merge_lists floats best admitted lists).0
  unfolding merge_lists
  merge_lists-OfEntry best admitted [] h p = h
  merge_lists-OfEntry best admitted (list ∷ lists) h (q, p) =
      let merged = merge_list floats best admitted 0 list in
      merge_lists-OfEntry merged.0 merged.1 lists (merge_list-OfEntry best admitted 0 list h q) p

  -- What holds of the scope of every candidate holds of the scope of every fused hit.
  pub rrf_merge-OfHit :
      (lists : List (List (RetrievalHit F)))
      → All (All OfHit) lists
      → All OfHit (rrf_merge floats lists).hits
  unfolding rrf_merge finish
  rrf_merge-OfHit lists p =
      let best = (merge_lists floats [] 0 lists).0 in
      let accs = map (λ (e : Text × Acc F). e.1) best in
      All-map (finish floats) OfHit (sort_by (compare_acc floats) accs) (
        All-sort_by (compare_acc floats) (λ (acc : Acc F). P acc.hit.sensitivity_scope) accs
          (All-map (λ (e : Text × Acc F). e.1) (λ (acc : Acc F). P acc.hit.sensitivity_scope) best
            (merge_lists-OfEntry [] 0 lists tt p)))
