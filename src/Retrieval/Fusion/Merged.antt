-- ===== src/Retrieval/Fusion/Merged.antt =====
-- What `rrf_merge` returns: one hit for each text hash among the admitted candidates, each the
-- fusion of the candidates that have it.
use omni_sem.Base.{
  ◌+◌, ◌-◌, ◌≤◌, ◌≡◌, ◌≢◌, refl, sym, ap, subst, ◌∙◌, none, some, List, [], ◌∷◌, map, Text, length,
  text_eq, text_eq_iff, arith, inl, inr, Bool-cases, In, here, In-filter, filter-In, is_empty,
  map-In, All, All-imp, All-In, All-of_In, All-both, All-map, length-map, Distinct-map, Distinct,
  sort_by, All-sort_by, sort_by-In, Distinct-sort_by, length-sort_by,
}
use omni_sem.Domain.{RetrievalHit}
use omni_sem.Retrieval.Env.{Floats}
use omni_sem.Retrieval.Fusion.{
  reciprocal_rank, is_local, Acc, lookup, accumulate, merge_hit, finish, compare_acc, rrf_merge,
  FusionReport,
}
use omni_sem.Retrieval.Fusion.Stream.{
  Ranked, merge_all, merge_lists-stream, admitted_of, length-admitted_of,
}
use omni_sem.Retrieval.Fusion.Entries.{
  Keyed, Keyed-set_entry, In-lookup, lookup-In, length-set_entry,
}
use omni_sem.Retrieval.Fusion.Reference.{
  with_hash, locals, counted, fold_acc, lookup-merge_all, sum_from, SameEvidence, Fuses,
  fold_acc-Fuses,
}

module _ {F : Type 0} (floats : Floats F) where
  Keyed-merge_all :
      (best : List (Text × Acc F)) (rs : List (Ranked F))
      → Keyed best
      → Keyed (merge_all floats best rs)
  unfolding merge_all merge_hit
  Keyed-merge_all best [] d = d
  Keyed-merge_all best (r ∷ rs) d =
      Keyed-merge_all (merge_hit floats best r.rank r.hit) rs
        (Keyed-set_entry r.hit.text_hash _ best d)

  -- A hit stands for its text hash among the admitted candidates.
  pub record Represents (admitted : List (Ranked F)) (hit : RetrievalHit F) : Type 0 where
    pub first : Ranked F
    pub rest : List (Ranked F)
    pub group : counted (with_hash hit.text_hash admitted) ≡ first ∷ rest
    pub evidence : SameEvidence floats first.hit hit
    pub score : hit.score ≡ sum_from floats (reciprocal_rank floats first.rank) rest

  -- What the map holds under a key.
  record Stands (admitted : List (Ranked F)) (key : Text) (acc : Acc F) : Type 0 where
    hash : acc.hit.text_hash ≡ key
    fuses : Fuses floats (with_hash key admitted) acc

  In-counted : {r : Ranked F} (rs : List (Ranked F)) → In r (counted rs) → In r rs
  In-counted rs m = elim (Bool-cases (is_empty (locals rs))) [
    | inl none_local ↦ rw none_local at m
    | inr some_local ↦ (In-filter (λ r. is_local r.hit.origin) rs (rw some_local at m)).0
  ]

  Fuses-hash :
      (key : Text) (admitted : List (Ranked F)) (acc : Acc F)
      → Fuses floats (with_hash key admitted) acc
      → acc.hit.text_hash ≡ key
  Fuses-hash key admitted acc f =
      let m : In f.first (counted (with_hash key admitted)) =
        subst (In f.first) (sym f.group) here in
      let q =
        In-filter (λ r. text_eq r.hit.text_hash key) admitted
          (In-counted (with_hash key admitted) m) in
      ap (λ (h : RetrievalHit F). h.text_hash) f.evidence
      ∙ (text_eq_iff f.first.hit.text_hash key).0 q.1

  Stands-of :
      (admitted : List (Ranked F)) (key : Text) (acc : Acc F) (rs : List (Ranked F))
      → with_hash key admitted ≡ rs
      → fold_acc floats none rs ≡ some acc
      → Stands admitted key acc
  unfolding fold_acc
  Stands-of admitted key acc [] e f = cc
  Stands-of admitted key acc (r ∷ rs) e f =
      let (acc', folds, fuses) = fold_acc-Fuses floats r rs in
      let same : some acc' ≡ some acc = sym folds ∙ f in
      let same' : acc' ≡ acc = cc in
      let fuses' : Fuses floats (with_hash key admitted) acc =
        subst (λ c. Fuses floats (with_hash key admitted) c) same'
          (subst (λ l. Fuses floats l acc') (sym e) fuses) in
      record { hash = Fuses-hash key admitted acc fuses'; fuses = fuses' }

  merge_all-Stands :
      (admitted : List (Ranked F))
      → All (λ e. Stands admitted e.0 e.1) (merge_all floats [] admitted)
  unfolding lookup
  merge_all-Stands admitted =
      let best = merge_all floats [] admitted in
      let keyed = Keyed-merge_all [] admitted tt in
      All-of_In (λ e. Stands admitted e.0 e.1) best
        (λ e m.
          Stands-of admitted e.0 e.1 (with_hash e.0 admitted) refl
            (sym (lookup-merge_all floats e.0 [] admitted) ∙ In-lookup best keyed m))

  fold_acc-some :
      (rs : List (Ranked F)) {r : Ranked F}
      → In r rs
      → (acc : Acc F) × (fold_acc floats none rs ≡ some acc)
  fold_acc-some [] m = elim m [ ]
  fold_acc-some (r ∷ rs) m = let (acc, folds, fuses) = fold_acc-Fuses floats r rs in (acc, folds)

  merge_all-covers :
      (admitted : List (Ranked F)) {r : Ranked F}
      → In r admitted
      → (acc : Acc F) × In (r.hit.text_hash, acc) (merge_all floats [] admitted)
  unfolding lookup
  merge_all-covers admitted {r} m =
      let key = r.hit.text_hash in
      let m' = filter-In (λ s. text_eq s.hit.text_hash key) m ((text_eq_iff key key).1 refl) in
      let (acc, folds) = fold_acc-some (with_hash key admitted) m' in
      (
        acc,
        lookup-In (merge_all floats [] admitted) (lookup-merge_all floats key [] admitted ∙ folds),
      )

  -- What a report of a fusion states of the admitted candidates.
  pub record IsFusionOf (admitted : List (Ranked F)) (report : FusionReport F) : Type 0 where
    pub one_each : Distinct (λ (h : RetrievalHit F). h.text_hash) report.hits
    pub represents : All (Represents admitted) report.hits
    pub covers :
        All
          (λ r. (h : RetrievalHit F) × In h report.hits × (h.text_hash ≡ r.hit.text_hash))
          admitted
    pub counts_admitted : report.admitted ≡ length admitted
    pub counts_unique : report.unique ≡ length report.hits
    pub counts_duplicates : report.duplicates ≡ length admitted - length report.hits

  finish-Represents :
      (admitted : List (Ranked F)) (key : Text) (acc : Acc F)
      → Stands admitted key acc
      → Represents admitted (finish floats acc)
  unfolding finish
  finish-Represents admitted key acc s = record {
    first = s.fuses.first;
    rest = s.fuses.rest;
    group = ap (λ k. counted (with_hash k admitted)) s.hash ∙ s.fuses.group;
    evidence = s.fuses.evidence;
    score = s.fuses.score;
  }

  length-merge_all :
      (best : List (Text × Acc F)) (rs : List (Ranked F))
      → length (merge_all floats best rs) ≤ length best + length rs
  unfolding merge_all merge_hit
  length-merge_all best [] = omega arith
  length-merge_all best (r ∷ rs) = omega (
    arith,
    length-merge_all (merge_hit floats best r.rank r.hit) rs,
    length-set_entry r.hit.text_hash (accumulate floats (lookup r.hit.text_hash best) r.rank r.hit)
        best,
  )

  Distinct-accs :
      (admitted : List (Ranked F)) (best : List (Text × Acc F))
      → All (λ e. Stands admitted e.0 e.1) best
      → Keyed best
      → Distinct (λ (e : Text × Acc F). e.1.hit.text_hash) best
  Distinct-accs admitted [] h d = tt
  Distinct-accs admitted (e ∷ best) (s, h) (a, d) = (
    All-imp (λ f p q. p.1 (sym p.0.hash ∙ q ∙ s.hash)) best
        (All-both (λ f. Stands admitted f.0 f.1) (λ f. f.0 ≢ e.0) best h a),
    Distinct-accs admitted best h d,
  )

  abbrev hits_of : List (Text × Acc F) → List (RetrievalHit F)
  hits_of best = map (finish floats) (sort_by (compare_acc floats) (map (λ e. e.1) best))

  hits_of-Distinct :
      (admitted : List (Ranked F)) (best : List (Text × Acc F))
      → All (λ e. Stands admitted e.0 e.1) best
      → Keyed best
      → Distinct (λ (h : RetrievalHit F). h.text_hash) (hits_of best)
  unfolding finish
  hits_of-Distinct admitted best h d =
      Distinct-map (finish floats) (λ (h : RetrievalHit F). h.text_hash) _
        (Distinct-sort_by (compare_acc floats) (λ (a : Acc F). a.hit.text_hash) _
          (Distinct-map (λ (e : Text × Acc F). e.1) (λ (a : Acc F). a.hit.text_hash) best
            (Distinct-accs admitted best h d)))

  hits_of-Represents :
      (admitted : List (Ranked F)) (best : List (Text × Acc F))
      → All (λ e. Stands admitted e.0 e.1) best
      → All (Represents admitted) (hits_of best)
  hits_of-Represents admitted best h = All-map (finish floats) (Represents admitted) _ (
      All-sort_by (compare_acc floats) (λ a. Represents admitted (finish floats a)) _
        (All-map (λ (e : Text × Acc F). e.1) (λ a. Represents admitted (finish floats a)) best
          (All-imp (λ e s. finish-Represents admitted e.0 e.1 s) best h)))

  hits_of-covers :
      (best : List (Text × Acc F)) {key : Text} {acc : Acc F}
      → In (key, acc) best
      → In (finish floats acc) (hits_of best)
  hits_of-covers best m =
      map-In (finish floats)
        (sort_by-In (compare_acc floats) (map-In (λ (e : Text × Acc F). e.1) m))

  length-hits_of : (best : List (Text × Acc F)) → length (hits_of best) ≡ length best
  length-hits_of best =
      length-map (finish floats) _
      ∙ length-sort_by (compare_acc floats) _
      ∙ length-map (λ (e : Text × Acc F). e.1) best

  hits_of_merged :
      (admitted : List (Ranked F)) {r : Ranked F}
      → In r admitted
      → (h : RetrievalHit F) × In h (hits_of (merge_all floats [] admitted))
        × (h.text_hash ≡ r.hit.text_hash)
  unfolding finish
  hits_of_merged admitted m =
      let (acc, m') = merge_all-covers admitted m in
      (
        finish floats acc,
        hits_of-covers (merge_all floats [] admitted) m',
        (All-In (λ e. Stands admitted e.0 e.1) (merge_all-Stands admitted) m').hash,
      )

  -- The report of `rrf_merge` has one hit for each text hash among the first 768 candidates of the
  -- lists, taken in order. Local candidates alone count for a hash that some local candidate has.
  -- The hit is the first of the candidates that count, up to its signals, explanation and score,
  -- and its score is the sum of their contributions. The counts are those of the candidates, of
  -- the hits, and of the difference.
  pub rrf_merge_lem :
      (lists : List (List (RetrievalHit F)))
      → IsFusionOf (admitted_of lists) (rrf_merge floats lists)
  unfolding rrf_merge
  rrf_merge_lem lists =
      let admitted = admitted_of lists in
      let best = merge_all floats [] admitted in
      let stands = merge_all-Stands admitted in
      let keyed = Keyed-merge_all [] admitted tt in
      let few = length-admitted_of lists in
      let fewer = length-merge_all [] admitted in
      let same = length-hits_of best in
      rw (merge_lists-stream floats lists) record {
        one_each = hits_of-Distinct admitted best stands keyed;
        represents = hits_of-Represents admitted best stands;
        covers = All-of_In _ admitted (λ r m. hits_of_merged admitted m);
        counts_admitted = omega arith;
        counts_unique = omega arith;
        counts_duplicates = omega arith;
      }
