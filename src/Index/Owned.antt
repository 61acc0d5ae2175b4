-- ===== src/Index/Owned.antt =====
-- Whose the chunks of a file are (src/tools/index.rs).
use vexcoder.Prelude.{
  ◌≡◌, refl, Bool, true, false, Option, none, some, List, [], ◌∷◌, ◌++◌, All, All-append,
  if◌then◌else◌, Text, codes,
}
use vexcoder.Index.Items.{
  ItemKind, function, class, IndexChunk, SourceLanguage, rust, python, type_script, tsx,
  java_script, Head, Nodes, no_nodes, node, is_kind, extract_name, push_chunk,
}
use vexcoder.Index.Extract.{
  kind_in, rust_kinds, has_scope, javascript_kind, rust_item, javascript_item, extract_rust_items,
  extract_python_items, extract_javascript_items, parse_source_file,
}

module _ (rel : Text) where
  abbrev pub Owned : List IndexChunk → Type 0
  Owned = All (λ c. c.path ≡ rel)

  Owned-append : (a b : List IndexChunk) → Owned a → Owned b → Owned (a ++ b)
  Owned-append = All-append (λ c. c.path ≡ rel)

  push-Owned :
      (h : Head) (kind : ItemKind) (name : Text) (scope : Option Text) (chunks : List IndexChunk)
      → Owned chunks
      → Owned (push_chunk rel h kind name scope ∷ chunks)
  unfolding push_chunk
  push-Owned h kind name scope chunks o = (refl, o)

  pub if-Owned : (b : Bool) (x y : List IndexChunk) → Owned x → Owned y → Owned (if b then x else y)
  if-Owned true x y ox oy = ox
  if-Owned false x y ox oy = oy

  rust_item-Owned :
      (scope : Option Text) (h : Head) (kids : Nodes) (inside : Option Text → List IndexChunk)
      (k : Option ItemKind)
      → ((s : Option Text) → Owned (inside s))
      → Owned (rust_item rel scope h kids inside k)
  rust_item-Owned scope h kids inside none o =
      if-Owned (is_kind (codes "declaration_list") h) (inside scope) [] (o scope) tt
  rust_item-Owned scope h kids inside (some kind) o =
      let name = extract_name kind kids in
      if-Owned (has_scope kind) _ _
        (push-Owned h kind name (some name) (inside (some name)) (o (some name)))
        (push-Owned h kind name scope [] tt)

  rust-Owned : (scope : Option Text) (nodes : Nodes) → Owned (extract_rust_items rel scope nodes)
  unfolding extract_rust_items
  rust-Owned scope no_nodes = tt
  rust-Owned scope (node f h kids rest) =
      Owned-append _ (extract_rust_items rel scope rest)
        (rust_item-Owned scope h kids (λ s. extract_rust_items rel s kids)
          (kind_in rust_kinds h.kind) (λ s. rust-Owned s kids))
        (rust-Owned scope rest)

  python-Owned :
      (scope : Option Text) (nodes : Nodes) → Owned (extract_python_items rel scope nodes)
  unfolding extract_python_items
  python-Owned scope no_nodes = tt
  python-Owned scope (node f h kids rest) =
      Owned-append _ (extract_python_items rel scope rest)
        (if-Owned (is_kind (codes "class_definition") h) _ _
          (push-Owned h class (extract_name class kids) scope _
            (python-Owned (some (extract_name class kids)) kids))
          (if-Owned (is_kind (codes "function_definition") h) _ _
            (push-Owned h function (extract_name function kids) scope [] tt)
            (python-Owned scope kids)))
        (python-Owned scope rest)

  javascript_item-Owned :
      (scope : Option Text) (h : Head) (kids : Nodes) (inside : Option Text → List IndexChunk)
      (k : Option ItemKind)
      → ((s : Option Text) → Owned (inside s))
      → Owned (javascript_item rel scope h kids inside k)
  javascript_item-Owned scope h kids inside none o = o scope
  javascript_item-Owned scope h kids inside (some kind) o =
      push-Owned h kind (extract_name kind kids) scope [] tt

  javascript-Owned :
      (scope : Option Text) (nodes : Nodes) → Owned (extract_javascript_items rel scope nodes)
  unfolding extract_javascript_items
  javascript-Owned scope no_nodes = tt
  javascript-Owned scope (node f h kids rest) =
      Owned-append _ (extract_javascript_items rel scope rest)
        (if-Owned (is_kind (codes "class_declaration") h) _ _
          (push-Owned h class (extract_name class kids) scope _
            (javascript-Owned (some (extract_name class kids)) kids))
          (javascript_item-Owned scope h kids (λ s. extract_javascript_items rel s kids)
            (javascript_kind h kids) (λ s. javascript-Owned s kids)))
        (javascript-Owned scope rest)

  -- The chunks of a file have its path.
  pub parse_source_file-Owned :
      (language : SourceLanguage) (root : Option Nodes)
      → Owned (parse_source_file rel language root)
  unfolding parse_source_file
  parse_source_file-Owned language none = tt
  parse_source_file-Owned rust (some root) = rust-Owned none root
  parse_source_file-Owned python (some root) = python-Owned none root
  parse_source_file-Owned type_script (some root) = javascript-Owned none root
  parse_source_file-Owned tsx (some root) = javascript-Owned none root
  parse_source_file-Owned java_script (some root) = javascript-Owned none root
