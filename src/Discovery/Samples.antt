-- ===== src/Discovery/Samples.antt =====
-- A root with one note and one directory.
use omni_sem.Base.{true, false, none, some, [], ◌∷◌, ◌++◌, codes, length, leb, if◌then◌else◌}
use omni_sem.Domain.{FilePath, root_dir, normal, markdown, ok}
use omni_sem.Domain.Records.{Root, DiscoveredDocument}
use omni_sem.Discovery.{default_options, since_epoch, Metadata, DirEntry, Outside}
use omni_sem.Discovery.Walk.{EntryContext}

abbrev pub notes : FilePath
notes = root_dir ∷ normal (codes "notes") ∷ []

abbrev pub todo : FilePath
todo = normal (codes "todo.md") ∷ []

abbrev pub plain_file : Metadata
plain_file = record {
  file_type = record { is_dir = false; is_file = true; is_symlink = false; is_special = false };
  len = 12;
  modified = ok (since_epoch 5);
}

abbrev pub directory : Metadata
directory = record plain_file {
  file_type = record { is_dir = true; is_file = false; is_symlink = false; is_special = false };
}

abbrev pub todo_entry : DirEntry
todo_entry = record {
  path = notes ++ todo;
  file_type = some plain_file.file_type;
  metadata = ok plain_file;
}

abbrev pub notes_entry : DirEntry
notes_entry = record { path = notes; file_type = some directory.file_type; metadata = ok directory }

-- Every path is a file but the root; no pattern matches and no file is ignored.
abbrev pub one_note : Outside
one_note = record {
  path_from = λ message. normal message ∷ [];
  path_exists = λ path. true;
  metadata = λ path. if leb (length path) 2 then ok directory else ok plain_file;
  symlink_metadata = λ path. ok plain_file;
  canonicalize = λ path. ok path;
  walk = λ path options. ok notes_entry ∷ ok todo_entry ∷ [];
  glob_error = λ pattern. none;
  glob_set = λ patterns. ok (λ path. false);
  gitignore = λ root files. some (λ path. false);
}

abbrev pub notes_root : Root
notes_root = record {
  id = 1;
  canonical_path = notes;
  display_name = codes "notes";
  include_patterns = [];
  exclude_patterns = [];
  sensitivity_tags = [];
  follow_symlinks = false;
  enabled = true;
  created_at = 0;
  updated_at = 0;
  config_fingerprint = [];
}

abbrev pub notes_context : EntryContext
notes_context = record {
  root = notes_root;
  root_path = notes;
  options = default_options;
  exclude = λ path. false;
  include = none;
}

abbrev pub todo_document : DiscoveredDocument
todo_document = record {
  root_id = 1;
  canonical_path = notes ++ todo;
  relative_path = todo;
  size_bytes = 12;
  modified_at = 5;
  file_type = markdown;
}
