-- ===== src/PrefixCache/Manager.antt =====
-- `MultiplexPrefixManager`. The fingerprint of a prefix and its JSON text, which the JSON and the hash
-- libraries make, come in with the prefix. Blobs are lists of bytes.
use vexcoder.Prelude.{ℕ, max, Bool, Option, List, [], ◌∷◌, ◌++◌, leb, if◌then◌else◌, length, Text}
use vexcoder.Prelude.Assoc.{Assoc, lookup, contains_key, insert, remove}

pub record MultiplexPrefixManager : Type 0 where
  pub capacity : ℕ
  pub entries : Assoc (List ℕ)
  pub insertion_order : List Text

unfoldable pub new_manager : ℕ → MultiplexPrefixManager
new_manager capacity = record { capacity = max capacity 1; entries = []; insertion_order = [] }

-- `while self.insertion_order.len() >= self.capacity`
unfoldable pub make_room : ℕ → List Text → Assoc (List ℕ) → List Text × Assoc (List ℕ)
make_room capacity [] entries = ([], entries)
make_room capacity (oldest ∷ rest) entries =
    let less = make_room capacity rest (remove oldest entries) in
    if leb capacity (length (oldest ∷ rest)) then less else (oldest ∷ rest, entries)

unfoldable pub insert_prefix : MultiplexPrefixManager → Text → List ℕ → MultiplexPrefixManager
unfolding make_room
insert_prefix p fingerprint blob =
    let room = make_room p.capacity p.insertion_order p.entries in
    if contains_key fingerprint p.entries then p else record p {
      insertion_order = room.0 ++ (fingerprint ∷ []);
      entries = insert fingerprint blob room.1;
    }

-- `register`, of a prefix with this fingerprint and this `implemented_json`
unfoldable pub register : MultiplexPrefixManager → Text → List ℕ → MultiplexPrefixManager × Text
unfolding insert_prefix
register p fingerprint implemented =
    if contains_key fingerprint p.entries
    then (p, fingerprint)
    else (insert_prefix p fingerprint implemented, fingerprint)

unfoldable pub get : MultiplexPrefixManager → Text → Option (List ℕ)
get p fingerprint = lookup fingerprint p.entries

unfoldable pub contains_prefix : MultiplexPrefixManager → Text → Bool
contains_prefix p fingerprint = contains_key fingerprint p.entries

unfoldable pub len : MultiplexPrefixManager → ℕ
len p = length p.entries
