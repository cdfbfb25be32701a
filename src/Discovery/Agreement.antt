-- ===== src/Discovery/Agreement.antt =====
-- The walk and the validation of one path accept the same documents.
use omni_sem.Base.{◌≡◌, false, ◌&&◌, List, [], ◌++◌, Text}
use omni_sem.Domain.{FilePath, Result, ok, err}
use omni_sem.Domain.Records.{DiscoveredDocument}
use omni_sem.Discovery.{Metadata, DirEntry, Outside}
use omni_sem.Discovery.Walk.{EntryContext, is_directory, process_file}
use omni_sem.Discovery.Validate.{is_path_gitignored}

module _ (outside : Outside) (ctx : EntryContext) (relative : FilePath) where
  -- What the walker's entry is to the path: it stands there and is no directory, its metadata is that of
  -- the path, and no ignore file hides it.
  pub record Walked (entry : DirEntry) : Type 0 where
    pub at : entry.path ≡ ctx.root_path ++ relative
    pub not_directory : is_directory entry.file_type ≡ false
    pub same_metadata : entry.metadata ≡ outside.symlink_metadata (ctx.root_path ++ relative)
    pub not_ignored :
        (ctx.options.honor_gitignore
          && is_path_gitignored outside ctx.root_path relative (ctx.root_path ++ relative))
        ≡ false

  -- The documents of the entry, from its metadata on.
  abbrev from_metadata : Result Text Metadata → List DiscoveredDocument
  from_metadata (err message) = []
  from_metadata (ok metadata) =
      (process_file outside ctx (ctx.root_path ++ relative) relative metadata []).1
