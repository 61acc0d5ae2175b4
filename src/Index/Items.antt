-- ===== src/Index/Items.antt =====
-- The chunks of the index and the syntax tree that they are read from (src/tools/index.rs). The
-- tree is the parser's: a node with its kind, its text where that is UTF-8, its rows, and its
-- children, each with the name of its field.
use vexcoder.Prelude.{
  ℕ, ◌+◌, Bool, false, ◌||◌, Option, none, some, [], if◌then◌else◌, Text, codes, text_eq,
}

pub data ItemKind : Type 0 where
  function : ItemKind
  struct : ItemKind
  class : ItemKind
  interface : ItemKind
  enum : ItemKind
  impl : ItemKind
  trait : ItemKind
  module_item : ItemKind
  const : ItemKind
  static : ItemKind
  type_alias : ItemKind

unfoldable pub label : ItemKind → Text
label function = codes "function"
label struct = codes "struct"
label class = codes "class"
label interface = codes "interface"
label enum = codes "enum"
label impl = codes "impl"
label trait = codes "trait"
label module_item = codes "module"
label const = codes "const"
label static = codes "static"
label type_alias = codes "type"

pub record IndexChunk : Type 0 where
  pub path : Text
  pub start_line : ℕ
  pub end_line : ℕ
  pub kind : ItemKind
  pub name : Text
  pub parent_scope : Option Text
  pub source : Text

pub data SourceLanguage : Type 0 where
  rust : SourceLanguage
  python : SourceLanguage
  type_script : SourceLanguage
  tsx : SourceLanguage
  java_script : SourceLanguage

pub record Head : Type 0 where
  pub kind : Text
  pub utf8_text : Option Text
  pub start_row : ℕ
  pub end_row : ℕ

-- The children of a node from one on: its field, itself, its children, and those behind it
pub data Nodes : Type 0 where
  no_nodes : Nodes
  node : Option Text → Head → Nodes → Nodes → Nodes

abbrev pub text_or : Text → Option Text → Text
text_or default none = default
text_or default (some s) = s

abbrev pub is_kind : Text → Head → Bool
is_kind k h = text_eq h.kind k

abbrev is_field : Text → Option Text → Bool
is_field name none = false
is_field name (some f) = text_eq f name

abbrev pub child_by_field_name : Text → Nodes → Option Head
child_by_field_name name no_nodes = none
child_by_field_name name (node f h kids rest) =
    let later = child_by_field_name name rest in if is_field name f then some h else later

abbrev first_child : (Head → Bool) → Nodes → Option Head
first_child p no_nodes = none
first_child p (node f h kids rest) = let later = first_child p rest in if p h then some h else later

abbrev is_impl_type : Head → Bool
is_impl_type h = is_kind (codes "type_identifier") h || is_kind (codes "generic_type") h

abbrev is_name : Head → Bool
is_name h =
    is_kind (codes "identifier") h
    || is_kind (codes "type_identifier") h
    || is_kind (codes "property_identifier") h

abbrev text_of : Text → Option Head → Text
text_of default none = default
text_of default (some h) = text_or (codes "_") h.utf8_text

abbrev first_some : Option Head → Option Head → Option Head
first_some none b = b
first_some (some a) b = some a

-- The name of the node with these children
unfoldable pub extract_name : ItemKind → Nodes → Text
unfolding text_eq
extract_name impl kids = text_of (codes "_impl") (first_child is_impl_type kids)
extract_name _ kids =
    text_of (codes "_")
      (first_some (child_by_field_name (codes "name") kids) (first_child is_name kids))

unfoldable pub push_chunk : Text → Head → ItemKind → Text → Option Text → IndexChunk
push_chunk rel_path h kind name parent_scope = record {
  path = rel_path;
  start_line = h.start_row + 1;
  end_line = h.end_row + 1;
  kind = kind;
  name = name;
  parent_scope = parent_scope;
  source = text_or [] h.utf8_text;
}
