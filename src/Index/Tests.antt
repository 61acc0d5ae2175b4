-- ===== src/Index/Tests.antt =====
-- A workspace of two files, of which one changes.
use vexcoder.Prelude.{
  refl, true, false, if◌then◌else◌, none, some, [], ◌∷◌, Option, Text, codes, text_eq,
}
use vexcoder.Index.Items.{SourceLanguage, Nodes, no_nodes, node}
use vexcoder.Index.Build.{
  Paths, Files, workspace_relative, build_index_filtered, update_index_filtered,
}
use vexcoder.Index.Change.{IsChange}
use vexcoder.Index.Update.{Rebuilt, update_index_filtered-Rebuilds}

-- Every source has one function, whose text is the source.
abbrev one_function : SourceLanguage → Text → Option Nodes
one_function language source = some (
    node none
      (record { kind = codes "function_item"; utf8_text = some source; start_row = 0; end_row = 2 })
      no_nodes no_nodes)

abbrev workspace : Paths
workspace = record {
  PathBuf = Text;
  strip_root = λ p. some p;
  to_string_lossy = λ p. p;
  extension = λ p. some (codes "rs");
  parse = one_function;
}

abbrev main_rs : Text
main_rs = codes "main.rs"

abbrev at_first : Files workspace
at_first = record {
  walk = some (main_rs ∷ codes "b.rs" ∷ []);
  is_ignored = λ rel is_dir. false;
  is_dir = λ p. false;
  metadata_len = λ p. some 40;
  read_to_string = λ p. some (codes "fn old() {}");
}

abbrev later : Files workspace
later = record at_first {
  read_to_string = λ p.
      if text_eq (workspace_relative workspace p) (workspace_relative workspace main_rs)
      then some (codes "fn new() {}")
      else some (codes "fn old() {}");
}

main_rs-IsChange : IsChange workspace at_first later main_rs
unfolding workspace_relative text_eq
main_rs-IsChange = record {
  walked = main_rs ∷ codes "b.rs" ∷ [];
  walked_after = main_rs ∷ codes "b.rs" ∷ [];
  was = refl;
  now = refl;
  others = refl;
  same_len = λ q other. refl;
  same_text = λ q other. rw other refl;
  found = true;
  itself = refl;
}

update_index_filtered-Rebuilds_example :
    Rebuilt workspace later main_rs main_rs-IsChange.found
      (codes "target/" ∷ [])
      1000
      (update_index_filtered workspace
        (build_index_filtered workspace at_first (codes "target/" ∷ []) 1000)
        main_rs
        later
        (codes "target/" ∷ [])
        1000)
      main_rs
update_index_filtered-Rebuilds_example =
    update_index_filtered-Rebuilds main_rs-IsChange (codes "target/" ∷ []) 1000 main_rs
