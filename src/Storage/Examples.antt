-- ===== src/Storage/Examples.antt =====
-- A third revision promoted, an old one refused, and the source deleted.
use omni_sem.Base.{none, ◌≡◌, ◌≢◌, inr, refl, some, [], ◌∷◌, ◌++◌, map, codes, All, text_eq}
use omni_sem.Domain.{ok}
use omni_sem.Storage.{
  promote_statements, run, then_run, transaction, Database, FtsRow, unless, delete_fts,
  same_content, insert_revision, insert_segment, insert_segments, insert_fts, fts_row, promoted,
  update_promoted, promote_revision, mark_source_deleted,
}
use omni_sem.Storage.Removal.{
  RootRemovalCounts, IsRemoved, delete_root_derived, delete_root_derived_lem,
}
use omni_sem.Storage.Samples.{stored-Searchable, source, revision, segment, stored}
use omni_sem.Storage.Promotion.{Searchable, Agrees}
use omni_sem.Storage.Search.{promote_revision-Searchable, mark_source_deleted-Searchable}

abbrev promoted_database : Database
promoted_database = record stored {
  source_files = promoted source 12 source ∷ [];
  revisions = stored.revisions ++ revision 12 (codes "k") ∷ [];
  segments = stored.segments ++ segment 102 12 ∷ [];
  segments_fts = fts_row source (revision 12 (codes "k")) (segment 102 12) ∷ [];
}

promotion_runs :
    promote_revision source (revision 12 (codes "k")) (segment 102 12 ∷ []) stored
    ≡ (promoted_database, none)
unfolding promote_revision promote_statements run then_run transaction insert_revision
    insert_segments insert_segment insert_fts unless delete_fts same_content update_promoted
    promoted text_eq fts_row
promotion_runs = refl

stored-Agrees : Agrees source stored
stored-Agrees = (inr refl, tt)

promote_revision-Searchable_example :
    Searchable promoted_database
    × (promoted_database.segments_fts
        ≡ delete_fts (some 11) stored.segments_fts
          ++ map (fts_row source (revision 12 (codes "k"))) (segment 102 12 ∷ []))
promote_revision-Searchable_example =
    promote_revision-Searchable source (revision 12 (codes "k")) (segment 102 12 ∷ []) stored
      promoted_database refl stored-Agrees stored-Searchable promotion_runs

mark_source_deleted-Searchable_example :
    Searchable (mark_source_deleted source 9 stored)
    × All
        (λ (f : FtsRow). f.source_file_id ≢ source.id)
        (mark_source_deleted source 9 stored).segments_fts
mark_source_deleted-Searchable_example =
    mark_source_deleted-Searchable source 9 stored stored-Agrees stored-Searchable

delete_root_derived_lem_example :
    (db' : Database) × (counts : RootRemovalCounts) × (delete_root_derived 1 stored
      ≡ (db', ok counts))
    × IsRemoved 1 stored db' counts
delete_root_derived_lem_example = delete_root_derived_lem 1 stored
