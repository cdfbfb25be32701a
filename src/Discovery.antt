-- ===== src/Discovery.antt =====
-- crates/omnisem-core/src/discovery.rs: the walk over an approved root. This file has its types and
-- what it takes from outside: the file system's answers, the walker's entries, the globs and the matcher
-- of ignore files. An error of the file system is its message.
pub mod Filters
pub mod FileTypes
pub mod Walk
pub mod Validate
pub mod Allowed
pub mod Accounted
pub mod Alike
pub mod Agreement
pub mod Samples
mod Examples
use omni_sem.Base.{ℕ, Bool, true, Option, List, Text, ◌*◌, ◌≤◌, leb, if◌then◌else◌}
use omni_sem.Domain.{Timestamp, FilePath, DomainError, invalid_timestamp, Result, ok, err}
use omni_sem.Domain.Records.{DiscoveredDocument}

abbrev pub default_max_file_size_bytes : ℕ
default_max_file_size_bytes = 10_485_760

pub record DiscoveryOptions : Type 0 where
  pub max_file_size_bytes : ℕ
  pub honor_gitignore : Bool
  pub ignore_hidden : Bool
  pub apply_default_excludes : Bool

-- `DiscoveryOptions::default`
abbrev pub default_options : DiscoveryOptions
default_options = record {
  max_file_size_bytes = default_max_file_size_bytes;
  honor_gitignore = true;
  ignore_hidden = true;
  apply_default_excludes = true;
}

pub data SkipReason : Type 0 where
  disabled_root : SkipReason
  not_a_file : SkipReason
  hidden : SkipReason
  symlink : SkipReason
  special_file : SkipReason
  outside_root : SkipReason
  ignored_by_git : SkipReason
  excluded_by_rule : SkipReason
  not_included : SkipReason
  unsupported_type : SkipReason
  oversized : ℕ → SkipReason
  invalid_metadata : Text → SkipReason

pub record SkippedPath : Type 0 where
  pub relative_path : FilePath
  pub reason : SkipReason

pub record DiscoveryReport : Type 0 where
  pub documents : List DiscoveredDocument
  pub skipped : List SkippedPath

pub data DiscoveryError : Type 0 where
  root_missing : FilePath → DiscoveryError
  root_not_directory : FilePath → DiscoveryError
  root_canonicalize : FilePath → Text → DiscoveryError
  invalid_pattern : Text → Text → DiscoveryError
  io : FilePath → Text → DiscoveryError

-- `SystemTime::duration_since(UNIX_EPOCH)`, in milliseconds.
pub data SystemTime : Type 0 where
  before_epoch : SystemTime
  since_epoch : ℕ → SystemTime

-- `Timestamp::try_from_system_time`: the milliseconds fit in an `i64`.
unfoldable pub try_from_system_time : SystemTime → Result DomainError Timestamp
try_from_system_time before_epoch = err invalid_timestamp
try_from_system_time (since_epoch millis) =
    if leb millis 9_223_372_036_854_775_807 then ok millis else err invalid_timestamp

-- `fs::FileType`; the last field is that it is a device, a FIFO or a socket.
pub record FileType : Type 0 where
  pub is_dir : Bool
  pub is_file : Bool
  pub is_symlink : Bool
  pub is_special : Bool

pub record Metadata : Type 0 where
  pub file_type : FileType
  pub len : ℕ
  pub modified : Result Text SystemTime

-- `ignore::DirEntry`
pub record DirEntry : Type 0 where
  pub path : FilePath
  pub file_type : Option FileType
  pub metadata : Result Text Metadata

pub record Outside : Type 0 where
  -- `PathBuf::from` of a message
  pub path_from : Text → FilePath
  -- `Path::exists`
  pub path_exists : FilePath → Bool
  -- `fs::metadata`
  pub metadata : FilePath → Result Text Metadata
  pub symlink_metadata : FilePath → Result Text Metadata
  pub canonicalize : FilePath → Result Text FilePath
  -- `build_walker`: the entries in order, or the message of an entry that could not be read.
  pub walk : FilePath → DiscoveryOptions → List (Result Text DirEntry)
  -- `Glob::new`: the message where the pattern does not parse.
  pub glob_error : Text → Option Text
  -- `GlobSetBuilder::build`: the set's `is_match`.
  pub glob_set : List Text → Result Text (Text → Bool)
  -- `GitignoreBuilder::build` for a root with the ignore files that were added: `is_ignore`.
  pub gitignore : FilePath → List FilePath → Option (FilePath → Bool)
