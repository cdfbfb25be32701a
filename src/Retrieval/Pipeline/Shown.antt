-- ===== src/Retrieval/Pipeline/Shown.antt =====
-- Local and snapshot hits may be shown, and fusion and packing keep that.
use omni_sem.Base.{
  ℕ, ◌+◌, ◌≡◌, refl, sym, subst, inl, inr, Bool, true, not, ◌&&◌, Option, List, [], ◌∷◌, ◌++◌, Text,
  codes, is_empty, take, length, to_u32, arith, Bool-cases, if-Holds, All, All-append,
}
use omni_sem.Domain.{
  FilePath, RetrievalQuery, RetrievalHit, SensitivityScope, ok, err, Result-cases,
}
use omni_sem.Domain.Names.{file_type_from_str}
use omni_sem.QueryParse.{ParsedQuery}
use omni_sem.Freshness.{FileSystem}
use omni_sem.Retrieval.Env.{Floats, Env}
use omni_sem.Retrieval.Candidates.{RawCandidate}
use omni_sem.Retrieval.Sensitivity.{SensitivityIndex, sensitivity_for_path, visible}
use omni_sem.Retrieval.Fusion.{FusionReport, unfused, rrf_merge}
use omni_sem.Retrieval.Fusion.Scopes.{rrf_merge-OfHit}
use omni_sem.Retrieval.Pipeline.{
  SnapshotSource, SnapshotFields, SnapshotRow, Channels, max_snapshots_per_query,
}
use omni_sem.Retrieval.Pipeline.Holds.{OkHolds}
use omni_sem.Retrieval.Pipeline.Snapshots.{
  rank_hits, is_admitted, row_hit, snapshot_hit, snapshot_hits, search_snapshot_hits, snapshot_list,
  snapshot_lists, semantic_list, fuse_lists, federate_with_snapshots, count_hits,
}
use omni_sem.Retrieval.Pipeline.Lexical.{local_hit, local_hits}

-- The hit's scope may be returned, with or without opting in.
abbrev pub ScopeShown : Bool → Option SensitivityScope → Type 0
ScopeShown include scope = visible scope include ≡ true

abbrev pub IsShown : {F : Type 0} → Bool → RetrievalHit F → Type 0
IsShown include hit = ScopeShown include hit.sensitivity_scope

module _ {F : Type 0} (env : Env) (floats : Floats F) (fs : FileSystem) (index : SensitivityIndex)
    (include : Bool) where
  pub local_hits-IsShown :
      (parsed : ParsedQuery) (rank : ℕ) (candidates : List (RawCandidate F))
      → All
          (λ (c : RawCandidate F).
            visible (sensitivity_for_path env index c.root_id c.relative_path) include ≡ true)
          candidates
      → All (IsShown include) (local_hits env floats fs index parsed rank candidates)
  unfolding local_hits local_hit
  local_hits-IsShown parsed rank [] h = tt
  local_hits-IsShown parsed rank (c ∷ candidates) (p, h) =
      (p, local_hits-IsShown parsed (rank + 1) candidates h)

rank_hits-IsShown :
    {F : Type 0} (include : Bool) (rank : ℕ) (hits : List (RetrievalHit F))
    → All (IsShown include) hits
    → All (IsShown include) (rank_hits rank hits)
unfolding rank_hits
rank_hits-IsShown include rank [] h = tt
rank_hits-IsShown include rank (hit ∷ hits) (p, h) =
    (p, rank_hits-IsShown include (rank + 1) hits h)

module _ {F : Type 0} (env : Env) (floats : Floats F) (channels : Channels F)
    (index : SensitivityIndex) (request : RetrievalQuery) (parsed : ParsedQuery) where
  abbrev pub Shown : RetrievalHit F → Type 0
  Shown = IsShown request.include_sensitive

  is_admitted-visible :
      (source : SnapshotSource) (relative : FilePath)
      → is_admitted env floats channels index request source relative ≡ true
      → visible
          (sensitivity_for_path env index source.local_root_id relative)
          request.include_sensitive
        ≡ true
  unfolding is_admitted
  is_admitted-visible source relative h = ground arith

  snapshot_hit-scope :
      (source : SnapshotSource) (relative : FilePath) (row : SnapshotFields F)
      → OkHolds
          (λ (hit : RetrievalHit F).
            hit.sensitivity_scope ≡ sensitivity_for_path env index source.local_root_id relative)
          (snapshot_hit env floats channels index parsed source relative row)
  unfolding snapshot_hit row_hit
  snapshot_hit-scope source relative row = elim (Result-cases (file_type_from_str row.file_type)) [
    | inl (e, f) ↦ rw (snapshot_hit, f) tt
    | inr (file_type, f) ↦ rw (snapshot_hit, f) refl
  ]

  snapshot_hits-Shown :
      (source : SnapshotSource) (rows : List (SnapshotRow F))
      → OkHolds (All Shown) (snapshot_hits env floats channels index request parsed source rows)
  unfolding snapshot_hits
  snapshot_hits-Shown source [] = tt
  snapshot_hits-Shown source ((relative, err message) ∷ rows) =
      if-Holds (OkHolds (All Shown))
        (not (is_admitted env floats channels index request source relative))
        (snapshot_hits env floats channels index request parsed source rows) (err message)
        (snapshot_hits-Shown source rows) tt
  snapshot_hits-Shown source ((relative, ok row) ∷ rows) =
      let later = snapshot_hits-Shown source rows in
      elim (Bool-cases (is_admitted env floats channels index request source relative)) [
        | inr refused ↦ rw (snapshot_hits, refused) later
        | inl admitted ↦
            elim (Result-cases
              (snapshot_hit env floats channels index parsed source relative row)) [
                | inl (e, f) ↦ rw (snapshot_hits, admitted, f) tt
                | inr (hit, f) ↦
                    elim (Result-cases
                      (snapshot_hits env floats channels index request parsed source rows)) [
                        | inl (e, g) ↦ rw (snapshot_hits, admitted, f, g) tt
                        | inr (hits, g) ↦
                            let scope : hit.sensitivity_scope
                                ≡ sensitivity_for_path env index source.local_root_id relative =
                              rw f at (snapshot_hit-scope source relative row) in
                            let hit-shown : Shown hit =
                              subst (ScopeShown request.include_sensitive) (sym scope)
                                (is_admitted-visible source relative admitted) in
                            let hits-shown : All Shown hits = rw g at later in
                            rw (snapshot_hits, admitted, f, g) (hit-shown, hits-shown)
                      ]
              ]
      ]

  search_snapshot_hits-Shown :
      (source : SnapshotSource)
      → OkHolds (All Shown) (search_snapshot_hits env floats channels index request parsed source)
  unfolding search_snapshot_hits
  search_snapshot_hits-Shown source =
      elim (Result-cases (channels.snapshot_rows source request parsed)) [
        | inl (e, f) ↦ rw (search_snapshot_hits, f) tt
        | inr (rows, f) ↦
            elim (Result-cases
              (snapshot_hits env floats channels index request parsed source rows)) [
                | inl (e, g) ↦ rw (search_snapshot_hits, f, g) tt
                | inr (hits, g) ↦
                    rw (search_snapshot_hits, f, g)
                      (rank_hits-IsShown request.include_sensitive 0 hits
                        (rw g at (snapshot_hits-Shown source rows)))
              ]
      ]

  snapshot_list-Shown :
      (source : SnapshotSource)
      → All (All Shown) (snapshot_list env floats channels index request parsed source).0
  unfolding snapshot_list
  snapshot_list-Shown source =
      elim (Result-cases (search_snapshot_hits env floats channels index request parsed source)) [
        | inl (e, f) ↦ rw (snapshot_list, f) tt
        | inr (hits, f) ↦
            let shown : All Shown hits = rw f at (search_snapshot_hits-Shown source) in
            rw (snapshot_list, f)
              (if-Holds (All (All Shown)) (is_empty hits) [] (hits ∷ []) tt (shown, tt))
      ]

  snapshot_lists-Shown :
      (sources : List SnapshotSource)
      → All (All Shown) (snapshot_lists env floats channels index request parsed sources).0
  unfolding snapshot_lists
  snapshot_lists-Shown [] = tt
  snapshot_lists-Shown (source ∷ sources) =
      All-append (All Shown) (snapshot_list env floats channels index request parsed source).0
        (snapshot_lists env floats channels index request parsed sources).0
        (snapshot_list-Shown source) (snapshot_lists-Shown sources)

  semantic_list-Shown :
      (hits : List (RetrievalHit F)) → All Shown hits → All (All Shown) (semantic_list hits)
  semantic_list-Shown [] h = tt
  semantic_list-Shown (hit ∷ hits) h = (h, tt)

  -- The hits of a fusion with warnings.
  abbrev pub Fused : FusionReport F × List Text → Type 0
  Fused p = All Shown p.0.hits

  merged-Shown :
      (lists : List (List (RetrievalHit F)))
      → All (All Shown) lists
      → All Shown (rrf_merge floats lists).hits
  merged-Shown lists h = rrf_merge-OfHit floats (ScopeShown request.include_sensitive) lists h

  fuse_lists-Fused :
      (local : List (RetrievalHit F)) (sources : List SnapshotSource)
      (semantic : List (RetrievalHit F))
      → All Shown local
      → All Shown semantic
      → Fused (fuse_lists env floats channels index request parsed local sources semantic)
  unfolding fuse_lists unfused
  fuse_lists-Fused local sources semantic h k =
      let found =
        snapshot_lists env floats channels index request parsed
          (take max_snapshots_per_query sources) in
      let others = found.0 ++ semantic_list semantic in
      let report = rrf_merge floats (local ∷ others) in
      let shown =
        All-append (All Shown) found.0 (semantic_list semantic)
          (snapshot_lists-Shown (take max_snapshots_per_query sources))
          (semantic_list-Shown semantic k) in
      if-Holds Fused (is_empty others) (unfused local, found.1)
        (
          record report {
            snapshot_candidates = count_hits 0 found.0;
            semantic_candidates = to_u32 (length semantic);
          },
          found.1,
        )
        h (merged-Shown (local ∷ others) (h, shown))

  pub federate_with_snapshots-Fused :
      (local : List (RetrievalHit F)) (warnings : List Text) (semantic : List (RetrievalHit F))
      → All Shown local
      → All Shown semantic
      → Fused
          (federate_with_snapshots env floats channels index request parsed local warnings semantic)
  unfolding federate_with_snapshots unfused
  federate_with_snapshots-Fused local warnings semantic h k =
      elim (Result-cases (channels.snapshot_sources request)) [
        | inl (e, f) ↦
            let warned = warnings ++ (codes "snapshot federation skipped: " ++ e) ∷ [] in
            let report = rrf_merge floats (local ∷ semantic ∷ []) in
            rw (federate_with_snapshots, f)
              (if-Holds Fused (is_empty semantic) (unfused local, warned)
                (record report { semantic_candidates = to_u32 (length semantic) }, warned) h
                (merged-Shown (local ∷ semantic ∷ []) (h, (k, tt))))
        | inr (sources, f) ↦
            let fused =
              fuse_lists env floats channels index request parsed local sources semantic in
            rw (federate_with_snapshots, f)
              (if-Holds Fused (is_empty sources && is_empty semantic) (unfused local, warnings)
                (fused.0, warnings ++ fused.1) h (fuse_lists-Fused local sources semantic h k))
      ]
