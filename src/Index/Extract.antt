-- ===== src/Index/Extract.antt =====
-- The items of a syntax tree (src/tools/index.rs). Each function gives the chunks that it pushes.
use vexcoder.Prelude.{
  Bool, true, false, ◌&&◌, ◌||◌, Option, none, some, List, [], ◌∷◌, ◌++◌, if◌then◌else◌, Text,
  codes, text_eq,
}
use vexcoder.Index.Items.{
  ItemKind, function, struct, class, interface, enum, impl, trait, module_item, const, static,
  type_alias, IndexChunk, SourceLanguage, rust, python, type_script, tsx, java_script, Head, Nodes,
  no_nodes, node, is_kind, child_by_field_name, extract_name, push_chunk,
}

abbrev Table : Type 0
Table = List (Text × ItemKind)

abbrev pub kind_in : Table → Text → Option ItemKind
kind_in [] k = none
kind_in ((name, item) ∷ table) k =
    let later = kind_in table k in if text_eq k name then some item else later

abbrev pub rust_kinds : Table
rust_kinds =
    (codes "function_item", function)
    ∷ (codes "struct_item", struct)
    ∷ (codes "enum_item", enum)
    ∷ (codes "impl_item", impl)
    ∷ (codes "trait_item", trait)
    ∷ (codes "mod_item", module_item)
    ∷ (codes "const_item", const)
    ∷ (codes "static_item", static)
    ∷ (codes "type_item", type_alias)
    ∷ []

abbrev pub has_scope : ItemKind → Bool
has_scope impl = true
has_scope trait = true
has_scope module_item = true
has_scope _ = false

-- What a child pushes; `inside` goes through its own children with a scope.
abbrev pub rust_item :
    Text
    → Option Text
    → Head
    → Nodes
    → (Option Text → List IndexChunk)
    → Option ItemKind
    → List IndexChunk
rust_item rel_path parent_scope h kids inside none =
    if is_kind (codes "declaration_list") h then inside parent_scope else []
rust_item rel_path parent_scope h kids inside (some kind) =
    let name = extract_name kind kids in
    if has_scope kind
    then push_chunk rel_path h kind name (some name) ∷ inside (some name)
    else push_chunk rel_path h kind name parent_scope ∷ []

unfoldable pub extract_rust_items : Text → Option Text → Nodes → List IndexChunk
unfolding text_eq extract_name push_chunk
extract_rust_items rel_path parent_scope no_nodes = []
extract_rust_items rel_path parent_scope (node f h kids rest) =
    let later = extract_rust_items rel_path parent_scope rest in
    rust_item rel_path parent_scope h kids (λ scope. extract_rust_items rel_path scope kids)
      (kind_in rust_kinds h.kind)
    ++ later

unfoldable pub extract_python_items : Text → Option Text → Nodes → List IndexChunk
unfolding text_eq extract_name push_chunk
extract_python_items rel_path parent_scope no_nodes = []
extract_python_items rel_path parent_scope (node f h kids rest) =
    let later = extract_python_items rel_path parent_scope rest in
    let name = extract_name class kids in
    let within_class = extract_python_items rel_path (some name) kids in
    let inside = extract_python_items rel_path parent_scope kids in
    (if is_kind (codes "class_definition") h
      then push_chunk rel_path h class name parent_scope ∷ within_class
      else if is_kind (codes "function_definition") h
      then push_chunk rel_path h function (extract_name function kids) parent_scope ∷ []
      else inside)
    ++ later

abbrev javascript_kinds : Table
javascript_kinds =
    (codes "function_declaration", function)
    ∷ (codes "generator_function_declaration", function)
    ∷ (codes "method_definition", function)
    ∷ (codes "interface_declaration", interface)
    ∷ (codes "type_alias_declaration", type_alias)
    ∷ (codes "enum_declaration", enum)
    ∷ []

abbrev is_function_value : Option Head → Bool
is_function_value none = false
is_function_value (some h) =
    is_kind (codes "arrow_function") h
    || is_kind (codes "function") h
    || is_kind (codes "function_expression") h

abbrev pub function_valued_variable : Nodes → Bool
function_valued_variable kids = is_function_value (child_by_field_name (codes "value") kids)

abbrev pub javascript_kind : Head → Nodes → Option ItemKind
javascript_kind h kids = elim (kind_in javascript_kinds h.kind) [
  | some kind ↦ some kind
  | none ↦
      if is_kind (codes "variable_declarator") h && function_valued_variable kids
      then some function
      else none
]

abbrev pub javascript_item :
    Text
    → Option Text
    → Head
    → Nodes
    → (Option Text → List IndexChunk)
    → Option ItemKind
    → List IndexChunk
javascript_item rel_path parent_scope h kids inside none = inside parent_scope
javascript_item rel_path parent_scope h kids inside (some kind) =
    push_chunk rel_path h kind (extract_name kind kids) parent_scope ∷ []

unfoldable pub extract_javascript_items : Text → Option Text → Nodes → List IndexChunk
unfolding text_eq extract_name push_chunk
extract_javascript_items rel_path parent_scope no_nodes = []
extract_javascript_items rel_path parent_scope (node f h kids rest) =
    let later = extract_javascript_items rel_path parent_scope rest in
    let name = extract_name class kids in
    let within_class = extract_javascript_items rel_path (some name) kids in
    (if is_kind (codes "class_declaration") h
      then push_chunk rel_path h class name parent_scope ∷ within_class
      else javascript_item rel_path parent_scope h kids
          (λ scope. extract_javascript_items rel_path scope kids) (javascript_kind h kids))
    ++ later

-- `parse_source_file` with the children of the root that the parser finds
unfoldable pub parse_source_file : Text → SourceLanguage → Option Nodes → List IndexChunk
unfolding extract_rust_items extract_python_items extract_javascript_items
parse_source_file rel_path language none = []
parse_source_file rel_path rust (some root) = extract_rust_items rel_path none root
parse_source_file rel_path python (some root) = extract_python_items rel_path none root
parse_source_file rel_path type_script (some root) = extract_javascript_items rel_path none root
parse_source_file rel_path tsx (some root) = extract_javascript_items rel_path none root
parse_source_file rel_path java_script (some root) = extract_javascript_items rel_path none root
