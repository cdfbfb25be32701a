-- ===== src/Retrieval/Candidates/Distinct.antt =====
-- What `suppress_duplicates` keeps: distinct evidence, in rank order, and none of it lost.
use omni_sem.Base.{
  ℕ, ◌≡◌, ◌≢◌, refl, sym, subst, ◌⊎◌, inl, inr, true, false, List, [], ◌∷◌, Text, nat_eq, string_eq,
  contains, In, here, there, Bool-cases, All, All-imp, contains-cons_false, All-both, Distinct,
  contains-cons_of_ne, contains-cons_true,
}
use omni_sem.Retrieval.Candidates.{RawCandidate, suppress_from, suppress_duplicates}

-- `xs` is `ys` with some members left out.
pub data Subsequence {A : Type 0} : List A → List A → Type 0 where
  done : Subsequence [] []
  skip : {x : A} {xs ys : List A} → Subsequence xs ys → Subsequence xs (x ∷ ys)
  keep : {x : A} {xs ys : List A} → Subsequence xs ys → Subsequence (x ∷ xs) (x ∷ ys)

module _ {F : Type 0} where
  suppress_from-Subsequence :
      (segments : List ℕ) (hashes : List Text) (cs : List (RawCandidate F))
      → Subsequence (suppress_from segments hashes cs) cs
  unfolding suppress_from
  suppress_from-Subsequence segments hashes [] = done
  suppress_from-Subsequence segments hashes (c ∷ cs) =
      elim (Bool-cases (contains segments c.segment_id)) [
        | inl old ↦ rw old (skip (suppress_from-Subsequence segments hashes cs))
        | inr new ↦ elim (Bool-cases (contains hashes c.text_hash)) [
          | inl old ↦
              rw (new, old) (skip (suppress_from-Subsequence (c.segment_id ∷ segments) hashes cs))
          | inr fresh ↦
              rw (new, fresh)
                (keep
                  (suppress_from-Subsequence (c.segment_id ∷ segments) (c.text_hash ∷ hashes) cs))
        ]
      ]

  -- What was seen before is not kept.
  abbrev pub IsNew : List ℕ → List Text → RawCandidate F → Type 0
  IsNew segments hashes c =
      (contains segments c.segment_id ≡ false) × (contains hashes c.text_hash ≡ false)

  pub suppress_from-IsNew :
      (segments : List ℕ) (hashes : List Text) (cs : List (RawCandidate F))
      → All (IsNew segments hashes) (suppress_from segments hashes cs)
  unfolding suppress_from
  suppress_from-IsNew segments hashes [] = tt
  suppress_from-IsNew segments hashes (c ∷ cs) =
      elim (Bool-cases (contains segments c.segment_id)) [
        | inl old ↦ rw old (suppress_from-IsNew segments hashes cs)
        | inr new ↦ elim (Bool-cases (contains hashes c.text_hash)) [
          | inl old ↦
              rw (new, old)
                (All-imp
                  (λ d p. ((contains-cons_false c.segment_id segments d.segment_id p.0).0, p.1))
                  (suppress_from (c.segment_id ∷ segments) hashes cs)
                  (suppress_from-IsNew (c.segment_id ∷ segments) hashes cs))
          | inr fresh ↦
              rw (new, fresh)
                (
                  (new, fresh),
                  All-imp
                      (λ d p. (
                        (contains-cons_false c.segment_id segments d.segment_id p.0).0,
                        (contains-cons_false c.text_hash hashes d.text_hash p.1).0,
                      ))
                      (suppress_from (c.segment_id ∷ segments) (c.text_hash ∷ hashes) cs)
                      (suppress_from-IsNew (c.segment_id ∷ segments) (c.text_hash ∷ hashes) cs),
                )
        ]
      ]

  suppress_from-Distinct :
      (segments : List ℕ) (hashes : List Text) (cs : List (RawCandidate F))
      → Distinct (λ c. c.segment_id) (suppress_from segments hashes cs)
        × Distinct (λ c. c.text_hash) (suppress_from segments hashes cs)
  unfolding suppress_from
  suppress_from-Distinct segments hashes [] = (tt, tt)
  suppress_from-Distinct segments hashes (c ∷ cs) =
      elim (Bool-cases (contains segments c.segment_id)) [
        | inl old ↦ rw old (suppress_from-Distinct segments hashes cs)
        | inr new ↦ elim (Bool-cases (contains hashes c.text_hash)) [
          | inl old ↦ rw (new, old) (suppress_from-Distinct (c.segment_id ∷ segments) hashes cs)
          | inr fresh ↦
              let rest = suppress_from (c.segment_id ∷ segments) (c.text_hash ∷ hashes) cs in
              let unseen =
                suppress_from-IsNew (c.segment_id ∷ segments) (c.text_hash ∷ hashes) cs in
              let (by_segment, by_hash) =
                suppress_from-Distinct (c.segment_id ∷ segments) (c.text_hash ∷ hashes) cs in
              rw (new, fresh)
                (
                  (
                    All-imp (λ d p. (contains-cons_false c.segment_id segments d.segment_id p.0).1)
                        rest unseen,
                    by_segment,
                  ),
                  (
                    All-imp (λ d p. (contains-cons_false c.text_hash hashes d.text_hash p.1).1) rest
                        unseen,
                    by_hash,
                  ),
                )
        ]
      ]

  -- The hash of `c` is seen already, or some kept candidate has it.
  abbrev IsCovered : List Text → List (RawCandidate F) → Text → Type 0
  IsCovered hashes kept h =
      (contains hashes h ≡ true) ⊎ ((k : RawCandidate F) × In k kept × (k.text_hash ≡ h))

  IsCovered-later :
      (hashes : List Text) (c : RawCandidate F) (kept cs : List (RawCandidate F))
      → All (λ d. IsCovered (c.text_hash ∷ hashes) kept d.text_hash) cs
      → All (λ d. IsCovered hashes (c ∷ kept) d.text_hash) cs
  IsCovered-later hashes c kept cs = All-imp (λ d covered. later d covered) cs
    where
      later :
          (d : RawCandidate F)
          → IsCovered (c.text_hash ∷ hashes) kept d.text_hash
          → IsCovered hashes (c ∷ kept) d.text_hash
      later d (inl old) = elim (contains-cons_true c.text_hash hashes d.text_hash old) [
        | inl same ↦ inr (c, here, same)
        | inr old' ↦ inl old'
      ]
      later d (inr (k, m, e)) = inr (k, there m, e)

  suppress_from-covers :
      (segments : List ℕ) (hashes : List Text) (cs : List (RawCandidate F))
      → Distinct (λ c. c.segment_id) cs
      → All (λ c. contains segments c.segment_id ≡ false) cs
      → All (λ c. IsCovered hashes (suppress_from segments hashes cs) c.text_hash) cs
  unfolding suppress_from
  suppress_from-covers segments hashes [] d a = tt
  suppress_from-covers segments hashes (c ∷ cs) (ne, d) (new, a) =
      let still =
        All-imp (λ e p. contains-cons_of_ne c.segment_id segments e.segment_id p.0 p.1) cs
          (All-both (λ e. contains segments e.segment_id ≡ false) (λ e. e.segment_id ≢ c.segment_id)
            cs a ne) in
      let Covers =
        λ (kept : List (RawCandidate F)). All (λ e. IsCovered hashes kept e.text_hash) (c ∷ cs) in
      elim (Bool-cases (contains hashes c.text_hash)) [
        | inl old ↦
            let kept = suppress_from (c.segment_id ∷ segments) hashes cs in
            let e : suppress_from segments hashes (c ∷ cs) ≡ kept = rw (new, old) refl in
            subst Covers (sym e)
              (inl old, suppress_from-covers (c.segment_id ∷ segments) hashes cs d still)
        | inr fresh ↦
            let kept = suppress_from (c.segment_id ∷ segments) (c.text_hash ∷ hashes) cs in
            let e : suppress_from segments hashes (c ∷ cs) ≡ c ∷ kept = rw (new, fresh) refl in
            subst Covers (sym e) (
              inr (c, here, refl),
              IsCovered-later hashes c kept cs (
                  suppress_from-covers (c.segment_id ∷ segments) (c.text_hash ∷ hashes) cs d still),
            )
      ]

-- Of candidates with distinct segments, what is kept is a subsequence, so in rank order, no two of
-- its members have the same segment or the same text hash, and every text hash among the
-- candidates is still there.
pub suppress_duplicates_lem :
    {F : Type 0} (candidates : List (RawCandidate F))
    → Distinct (λ c. c.segment_id) candidates
    → Subsequence (suppress_duplicates candidates) candidates
      × Distinct (λ c. c.segment_id) (suppress_duplicates candidates)
      × Distinct (λ c. c.text_hash) (suppress_duplicates candidates)
      × All
          (λ c.
            (k : RawCandidate F) × In k (suppress_duplicates candidates)
            × (k.text_hash ≡ c.text_hash))
          candidates
unfolding suppress_duplicates
suppress_duplicates_lem {F} candidates distinct =
    let (by_segment, by_hash) = suppress_from-Distinct [] [] candidates in
    (suppress_from-Subsequence [] [] candidates, by_segment, by_hash, covers distinct)
  where
    known :
        (c : RawCandidate F)
        → IsCovered [] (suppress_from [] [] candidates) c.text_hash
        → (k : RawCandidate F) × In k (suppress_from [] [] candidates) × (k.text_hash ≡ c.text_hash)
    known c (inl h) = cc
    known c (inr k) = k

    none_seen : (cs : List (RawCandidate F)) → All (λ c. contains [] c.segment_id ≡ false) cs
    none_seen [] = tt
    none_seen (c ∷ cs) = (refl, none_seen cs)

    covers :
        Distinct (λ c. c.segment_id) candidates
        → All
            (λ c.
              (k : RawCandidate F) × In k (suppress_from [] [] candidates)
              × (k.text_hash ≡ c.text_hash))
            candidates
    covers d =
        All-imp known candidates (suppress_from-covers [] [] candidates d (none_seen candidates))
