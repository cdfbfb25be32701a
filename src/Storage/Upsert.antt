-- ===== src/Storage/Upsert.antt =====
-- An upsert keeps the search rows to the current revisions of active sources.
use omni_sem.Base.{
  ◌≡◌, ◌≢◌, refl, sym, subst, ◌∙◌, ◌⊎◌, inl, inr, true, false, none, some, List, [], ◌∷◌, map, ◌==◌,
  ==_iff, any, arith, Bool-cases, In, here, there, In-append_left, map-In, All, All-In, All-imp,
  All-of_In, All-map, All-append, text_eq_iff, min,
}
use omni_sem.Domain.{active, ok}
use omni_sem.Domain.Records.{SourceFile}
use omni_sem.Retrieval.Sensitivity.{match_text}
use omni_sem.Storage.{
  Database, FtsRow, i64_max, same_path, upserted, upsert_source_file, find_source_file,
}
use omni_sem.Storage.Promotion.{IsCurrent, Searchable, Agrees, any-In, In-any, unless-ok}

-- No two rows have one identifier or one place.
abbrev pub Keyed : Database → Type 0
Keyed db =
    (s t : SourceFile)
    → In s db.source_files
    → In t db.source_files
    → (same_path s t ≡ true) ⊎ (s.id ≡ t.id)
    → s ≡ t

-- A row in the place of the source is the source's, with the same current revision, and the source is
-- active if it has one.
abbrev pub Continues : SourceFile → SourceFile → Type 0
Continues source s =
    (s.id ≡ source.id)
    × (s.current_revision_id ≡ source.current_revision_id)
    × ((source.state ≡ active) ⊎ (source.current_revision_id ≡ none))

module _ (source : SourceFile) where
  upserted-IsCurrent :
      (sources : List SourceFile) (f : FtsRow)
      → All (λ s. (same_path s source ≡ false) ⊎ Continues source s) sources
      → IsCurrent sources f
      → IsCurrent (map (upserted source) sources) f
  unfolding upserted
  upserted-IsCurrent sources f rows (s, m, same, current, is_active) =
      elim (Bool-cases (same_path s source)) [
        | inr other ↦
            let unchanged : upserted source s ≡ s = rw (upserted, other) refl in
            (
              s,
              subst (λ r. In r (map (upserted source) sources)) unchanged
                  (map-In (upserted source) m),
              same,
              current,
              is_active,
            )
        | inl place ↦ elim (All-In _ rows m) [
          | inl other ↦ absurd (ground arith)
          | inr (own, held, inr none_current) ↦
              let clash : none ≡ some f.revision_id = sym (held ∙ none_current) ∙ current in
              absurd cc
          | inr (own, held, inl active_now) ↦ (
            upserted source s,
            map-In (upserted source) m,
            rw place same,
            rw place (sym held ∙ current),
            rw place active_now,
          )
        ]
      ]

  upserted-Agrees :
      (db : Database)
      → Keyed db
      → All (λ s. (same_path s source ≡ false) ⊎ Continues source s) db.source_files
      → any (λ row. same_path row source) db.source_files ≡ true
      → All
          (λ (s : SourceFile).
            (s.id ≢ source.id) ⊎ (s.current_revision_id ≡ source.current_revision_id))
          (map (upserted source) db.source_files)
  unfolding upserted
  upserted-Agrees db keyed rows known =
      let (k, mk, place_k) = any-In (λ row. same_path row source) db.source_files known in
      let own_k : k.id ≡ source.id = elim (All-In _ rows mk) [
        | inl other ↦ absurd (ground arith)
        | inr continues ↦ continues.0
      ] in
      All-map (upserted source)
        (λ (s : SourceFile).
          (s.id ≢ source.id) ⊎ (s.current_revision_id ≡ source.current_revision_id))
        db.source_files
        (All-of_In _ db.source_files (λ s m. elim (Bool-cases (same_path s source)) [
          | inl place ↦ inr (rw place refl)
          | inr other ↦
              let unchanged : upserted source s ≡ s = rw (upserted, other) refl in
              rw unchanged (
                inl (λ e.
                  let equal : s ≡ k = keyed s k m mk (inr (e ∙ sym own_k)) in
                  let clash : same_path s source ≡ true =
                    subst (λ r. same_path r source ≡ true) (sym equal) place_k in
                  absurd (ground arith)))
        ]))

  -- With one row for an identifier and for a place, an upsert that continues the row in its place, if
  -- there is one, keeps the search rows, and the stored rows of the source have its current revision.
  pub upsert_source_file-Searchable :
      (db db' : Database)
      → Keyed db
      → All (λ s. (same_path s source ≡ false) ⊎ Continues source s) db.source_files
      → Searchable db
      → upsert_source_file source db ≡ ok db'
      → Searchable db' × Agrees source db'
  unfolding upsert_source_file
  upsert_source_file-Searchable db db' keyed rows searchable h =
      elim (Bool-cases (any (λ row. same_path row source) db.source_files)) [
        | inl known ↦
            let sources = map (upserted source) db.source_files in
            let e : ok (record db { source_files = sources }) ≡ ok db' = rw known at h in
            let e' : record db { source_files = sources } ≡ db' = cc in
            subst (λ (d : Database). Searchable d × Agrees source d) e'
              (
                All-imp (λ f c. upserted-IsCurrent db.source_files f rows c) db.segments_fts
                    searchable,
                upserted-Agrees db keyed rows known,
              )
        | inr new ↦
            let stored = record source { size_bytes = min source.size_bytes i64_max } in
            let (unbroken, e) = unless-ok _ _ db' (rw new at h) in
            subst (λ (d : Database). Searchable d × Agrees source d) e
              (
                All-imp
                    (λ f c.
                      let (s, m, same, current, is_active) = c in
                      (s, In-append_left db.source_files (stored ∷ []) m, same, current, is_active))
                    db.segments_fts searchable,
                All-append _ db.source_files (stored ∷ [])
                    (All-of_In _ db.source_files (λ s m. inl (λ same.
                      let taken =
                        In-any (λ (r : SourceFile). r.id == source.id) m
                          ((==_iff s.id source.id).1 same) in
                      absurd (ground arith))))
                    (inr refl, tt),
              )
      ]

-- What a lookup finds is the row in the place, and what it does not find is not there.
pub find_source_file-cases :
    (sources : List SourceFile) (source : SourceFile)
    → ((find_source_file sources source.root_id source.relative_path ≡ none)
        × All (λ s. same_path s source ≡ false) sources)
      ⊎ ((s : SourceFile) × (find_source_file sources source.root_id source.relative_path ≡ some s)
          × In s sources
          × (same_path s source ≡ true))
unfolding find_source_file same_path
find_source_file-cases [] source = inl (refl, tt)
find_source_file-cases (s ∷ sources) source = elim (Bool-cases (same_path s source)) [
  | inl place ↦ inr (s, rw place refl, here, place)
  | inr other ↦ elim (find_source_file-cases sources source) [
    | inl (missing, rest) ↦ inl (rw other missing, (other, rest))
    | inr (t, found, m, place) ↦ inr (t, rw other found, there m, place)
  ]
]

pub same_path_join :
    (s t source : SourceFile)
    → same_path s source ≡ true
    → same_path t source ≡ true
    → same_path s t ≡ true
unfolding same_path
same_path_join s t source p q = ground (
  arith,
  text_eq_iff (match_text s.relative_path) (match_text source.relative_path),
  text_eq_iff (match_text t.relative_path) (match_text source.relative_path),
  text_eq_iff (match_text s.relative_path) (match_text t.relative_path),
)
