-- ===== src/Index/Build.antt =====
-- The building of the index and its update for a changed file (src/tools/index.rs). The world
-- gives what the code reads: paths, the walk over the files that are not ignored, sizes, texts,
-- and the syntax trees of the parser. A text that the parser refuses has no tree.
use vexcoder.Prelude.{
  ℕ, ◌^◌, ◌-◌, Bool, not, ◌||◌, Option, none, some, List, [], ◌∷◌, ◌++◌, any, retain, ltb, ◌==◌,
  if◌then◌else◌, Text, codes, text_eq,
}
use vexcoder.Prelude.Options.{◌>>=◌}
use vexcoder.Lines.{starts_with}
use vexcoder.Index.Items.{
  IndexChunk, SourceLanguage, rust, python, type_script, tsx, java_script, Nodes,
}
use vexcoder.Index.Extract.{parse_source_file}

pub record Paths : Type 1 where
  pub PathBuf : Type 0
  -- `strip_prefix` of the root of the workspace, `to_string_lossy`, and `extension` as UTF-8
  pub strip_root : PathBuf → Option PathBuf
  pub to_string_lossy : PathBuf → Text
  pub extension : PathBuf → Option Text
  pub parse : SourceLanguage → Text → Option Nodes

module _ (paths : Paths) where
  open paths use {PathBuf, strip_root, to_string_lossy, extension, parse}

  -- The files at one time
  pub record Files : Type 0 where
    pub walk : Option (List PathBuf)
    pub is_ignored : Text → Bool → Bool
    pub is_dir : PathBuf → Bool
    pub metadata_len : PathBuf → Option ℕ
    pub read_to_string : PathBuf → Option Text

  abbrev slashes : Text → Text
  slashes [] = []
  slashes (c ∷ s) = (if c == b'\\' then b'/' else c) ∷ slashes s

  abbrev or_whole : PathBuf → Option PathBuf → PathBuf
  or_whole path none = path
  or_whole path (some rest) = rest

  unfoldable pub workspace_relative : PathBuf → Text
  workspace_relative path = slashes (to_string_lossy (or_whole path (strip_root path)))

  abbrev language_of : Text → Option SourceLanguage
  language_of ext =
      if text_eq ext (codes "rs")
      then some rust
      else if text_eq ext (codes "py")
      then some python
      else if text_eq ext (codes "ts")
      then some type_script
      else if text_eq ext (codes "tsx")
      then some tsx
      else if text_eq ext (codes "js")
          || text_eq ext (codes "mjs")
          || text_eq ext (codes "cjs")
          || text_eq ext (codes "jsx")
      then some java_script
      else none

  unfoldable pub detect_source_language : PathBuf → Option SourceLanguage
  unfolding text_eq
  detect_source_language path = do ext ← extension path; language_of ext

  abbrev pub size_or_zero : Option ℕ → ℕ
  size_or_zero none = 0
  size_or_zero (some n) = n

  abbrev pub is_excluded : List Text → Text → Bool
  is_excluded exclude rel = any (λ ex. starts_with ex rel) exclude

  abbrev pub parse_text : Text → SourceLanguage → Option Text → List IndexChunk
  parse_text rel language none = []
  parse_text rel language (some source) = parse_source_file rel language (parse language source)

  -- What both functions do with a file of the language
  abbrev pub read_source : Files → ℕ → PathBuf → Text → Option SourceLanguage → List IndexChunk
  read_source files max_file_size path rel none = []
  read_source files max_file_size path rel (some language) =
      if ltb max_file_size (size_or_zero (files.metadata_len path))
      then []
      else parse_text rel language (files.read_to_string path)

  unfoldable pub file_chunks : Files → ℕ → PathBuf → List IndexChunk
  unfolding workspace_relative detect_source_language parse_source_file
  file_chunks files max_file_size path =
      read_source files max_file_size path (workspace_relative path) (detect_source_language path)

  -- The part of the building for one file
  unfoldable pub walked_chunks : Files → List Text → ℕ → PathBuf → List IndexChunk
  unfolding file_chunks starts_with
  walked_chunks files exclude max_file_size path =
      if is_excluded exclude (workspace_relative path)
      then []
      else file_chunks files max_file_size path

  abbrev pub chunks_of_walk : Files → List Text → ℕ → List PathBuf → List IndexChunk
  chunks_of_walk files exclude max_file_size [] = []
  chunks_of_walk files exclude max_file_size (path ∷ walked) =
      walked_chunks files exclude max_file_size path
      ++ chunks_of_walk files exclude max_file_size walked

  unfoldable pub build_index_filtered : Files → List Text → ℕ → List IndexChunk
  unfolding walked_chunks
  build_index_filtered files exclude max_file_size = elim files.walk [
    | none ↦ []
    | some walked ↦ chunks_of_walk files exclude max_file_size walked
  ]

  -- `usize::MAX`
  abbrev pub build_index : Files → List IndexChunk
  build_index files = build_index_filtered files [] (2 ^ 64 - 1)

  abbrev pub without : Text → List IndexChunk → List IndexChunk
  without rel index = retain (λ c. not (text_eq c.path rel)) index

  unfoldable pub update_index_filtered :
      List IndexChunk → PathBuf → Files → List Text → ℕ → List IndexChunk
  unfolding file_chunks text_eq starts_with
  update_index_filtered index changed_path files exclude max_file_size =
      let rel = workspace_relative changed_path in
      without rel index
      ++ (if is_excluded exclude rel
          then []
          else if files.is_ignored rel (files.is_dir changed_path)
          then []
          else file_chunks files max_file_size changed_path)

  abbrev pub update_index : List IndexChunk → PathBuf → Files → List IndexChunk
  update_index index changed_path files =
      update_index_filtered index changed_path files [] (2 ^ 64 - 1)
