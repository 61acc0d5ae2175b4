-- ===== src/JoinIndex/Index.antt =====
-- `JoinIndex`. The map is kept in the order of insertion, and read in the order of its keys.
use vexcoder.Prelude.{
  ltb, ◌==◌, ◌&&◌, ◌||◌, false, true, ℕ, Bool, not, Option, none, some, List, [], ◌∷◌, ◌++◌, any,
  retain, if◌then◌else◌, Text, text_eq,
}
use vexcoder.Prelude.Assoc.{Assoc, lookup, insert}

pub record LiveJoinEntry : Type 0 where
  pub id : Text
  pub agent_id : Text
  pub body : Text
  pub supersedes : List Text

pub record JoinIndex : Type 0 where
  pub schema_version : ℕ
  pub entries : Assoc LiveJoinEntry

unfoldable pub new_index : JoinIndex
new_index = record { schema_version = 1; entries = [] }

abbrev pub has_text : Text → List Text → Bool
has_text t = any (λ x. text_eq x t)

-- The loop over the superseded ids: `existing` holds the texts of the list itself.
unfoldable pub add_new : List Text → List Text → List Text
add_new have [] = have
add_new have (x ∷ more) = add_new (if has_text x have then have else have ++ (x ∷ [])) more

abbrev pub or_new : Text → Option LiveJoinEntry → List Text
or_new id none = []
or_new id (some entry) = entry.supersedes

unfoldable pub post : JoinIndex → Text → Text → Text → List Text → JoinIndex
unfolding add_new
post index id agent_id body supersedes =
    let entry : LiveJoinEntry = record {
      id = id;
      agent_id = agent_id;
      body = body;
      supersedes = add_new (or_new id (lookup id index.entries)) supersedes;
    } in
    record index { entries = insert id entry index.entries }

abbrev pub values : Assoc LiveJoinEntry → List LiveJoinEntry
values [] = []
values ((k, e) ∷ m) = e ∷ values m

-- `superseded.contains(id)`
unfoldable pub is_superseded : List LiveJoinEntry → Text → Bool
is_superseded es id = any (λ (e : LiveJoinEntry). has_text id e.supersedes) es

-- `<` of two texts, which compares code points as it does bytes
unfoldable pub text_lt : Text → Text → Bool
text_lt s [] = false
text_lt [] (y ∷ ys) = true
text_lt (x ∷ xs) (y ∷ ys) = ltb x y || (x == y && text_lt xs ys)

unfoldable pub put : Text → LiveJoinEntry → Assoc LiveJoinEntry → Assoc LiveJoinEntry
put k e [] = (k, e) ∷ []
put k e ((j, f) ∷ m) =
    let rest = put k e m in if text_lt j k then (j, f) ∷ rest else (k, e) ∷ (j, f) ∷ m

-- The entries in the order of their keys, in which a `BTreeMap` gives them.
unfoldable pub by_key : Assoc LiveJoinEntry → Assoc LiveJoinEntry
unfolding put
by_key [] = []
by_key ((k, e) ∷ m) = put k e (by_key m)

unfoldable pub live_entries : JoinIndex → List LiveJoinEntry
unfolding is_superseded by_key
live_entries index =
    let es = values index.entries in
    retain (λ (e : LiveJoinEntry). not (is_superseded es e.id)) (values (by_key index.entries))
