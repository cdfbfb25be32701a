-- ===== src/Discovery/FileTypes.antt =====
-- discovery.rs: `classify_supported_file`, by the extension alone.
use omni_sem.Base.{
  Option, none, some, List, [], ◌∷◌, Text, codes, contains, string_eq, text_eq, ◌==◌, if◌then◌else◌,
  map, to_ascii_lowercase,
}
use omni_sem.Domain.{
  FilePath, prefix, root_dir, cur_dir, parent_dir, normal, SupportedFileType, markdown, plain_text,
}

-- The text behind the last dot, if there is a dot.
abbrev pub behind_last_dot : Text → Option Text
behind_last_dot [] = none
behind_last_dot (c ∷ t) = elim (behind_last_dot t) [
  | some e ↦ some e
  | none ↦ if c == 46 then some t else none
]

-- `Path::extension`: a name whose only dot is its first character has none.
abbrev pub name_extension : Text → Option Text
name_extension [] = none
name_extension (c ∷ t) = behind_last_dot t

abbrev pub extension : FilePath → Option Text
extension [] = none
extension ((normal name) ∷ []) = name_extension name
extension ((prefix s) ∷ []) = none
extension (root_dir ∷ []) = none
extension (cur_dir ∷ []) = none
extension (parent_dir ∷ []) = none
extension (c ∷ d ∷ path) = extension (d ∷ path)

abbrev markdown_extensions : List Text
markdown_extensions =
    codes "md" ∷ codes "markdown" ∷ codes "mdown" ∷ codes "mkd" ∷ codes "mdwn" ∷ []

abbrev plain_text_extensions : List Text
plain_text_extensions =
    codes "txt"
    ∷ codes "text"
    ∷ codes "log"
    ∷ codes "rst"
    ∷ codes "adoc"
    ∷ codes "asciidoc"
    ∷ codes "org"
    ∷ codes "csv"
    ∷ codes "tsv"
    ∷ codes "json"
    ∷ codes "jsonl"
    ∷ codes "yaml"
    ∷ codes "yml"
    ∷ codes "toml"
    ∷ codes "ini"
    ∷ codes "cfg"
    ∷ codes "conf"
    ∷ codes "rs"
    ∷ codes "py"
    ∷ codes "pyi"
    ∷ codes "js"
    ∷ codes "jsx"
    ∷ codes "ts"
    ∷ codes "tsx"
    ∷ codes "mjs"
    ∷ codes "cjs"
    ∷ codes "go"
    ∷ codes "java"
    ∷ codes "kt"
    ∷ codes "kts"
    ∷ codes "c"
    ∷ codes "h"
    ∷ codes "cc"
    ∷ codes "cpp"
    ∷ codes "cxx"
    ∷ codes "hpp"
    ∷ codes "hh"
    ∷ codes "cs"
    ∷ codes "rb"
    ∷ codes "php"
    ∷ codes "swift"
    ∷ codes "scala"
    ∷ codes "sh"
    ∷ codes "bash"
    ∷ codes "zsh"
    ∷ codes "fish"
    ∷ codes "ps1"
    ∷ codes "bat"
    ∷ codes "cmd"
    ∷ codes "sql"
    ∷ codes "html"
    ∷ codes "htm"
    ∷ codes "css"
    ∷ codes "scss"
    ∷ codes "less"
    ∷ codes "xml"
    ∷ codes "svg"
    ∷ codes "r"
    ∷ codes "jl"
    ∷ codes "lua"
    ∷ codes "pl"
    ∷ codes "pm"
    ∷ codes "ex"
    ∷ codes "exs"
    ∷ codes "erl"
    ∷ codes "hrl"
    ∷ codes "hs"
    ∷ codes "ml"
    ∷ codes "mli"
    ∷ codes "nim"
    ∷ codes "zig"
    ∷ codes "dart"
    ∷ codes "groovy"
    ∷ codes "gradle"
    ∷ codes "cmake"
    ∷ codes "make"
    ∷ codes "proto"
    ∷ codes "thrift"
    ∷ codes "graphql"
    ∷ codes "tf"
    ∷ codes "hcl"
    ∷ codes "nix"
    ∷ codes "vim"
    ∷ codes "el"
    ∷ codes "lisp"
    ∷ codes "clj"
    ∷ codes "cljs"
    ∷ codes "edn"
    ∷ codes "sbt"
    ∷ codes "lock"
    ∷ codes "sum"
    ∷ codes "mod"
    ∷ codes "cabal"
    ∷ codes "v"
    ∷ codes "sv"
    ∷ codes "vhdl"
    ∷ codes "asm"
    ∷ codes "s"
    ∷ []

unfoldable pub classify_supported_file : FilePath → Option SupportedFileType
unfolding text_eq
classify_supported_file path = elim (extension path) [
  | none ↦ none
  | some raw ↦
      let lower = map to_ascii_lowercase raw in
      if contains markdown_extensions lower
      then some markdown
      else if contains plain_text_extensions lower
      then some plain_text
      else none
]
