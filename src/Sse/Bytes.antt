-- ===== src/Sse/Bytes.antt =====
-- The search for the end of a frame in the buffer, and the byte order mark.
use vexcoder.Prelude.{
  ℕ, ◌+◌, min, Bool, true, false, not, ◌&&◌, ◌||◌, Option, none, some, List, [], ◌∷◌, length, take,
  drop, ◌==◌, if◌then◌else◌, text_eq,
}
use vexcoder.Lines.{starts_with}

abbrev pub Bytes : Type 0
Bytes = List ℕ

abbrev pub max_sse_buffer_bytes : ℕ
max_sse_buffer_bytes = 1048576

abbrev pub starts_lf : Bytes → Bool
starts_lf [] = false
starts_lf (c ∷ s) = c == b'\n'

-- `sse_line_terminator_len`, of the bytes from the index on
unfoldable pub terminator_len : Bytes → Option ℕ
terminator_len [] = none
terminator_len (c ∷ s) =
    if c == b'\n' then some 1 else if c == b'\r' then some (if starts_lf s then 2 else 1) else none

-- `return Some((index, first_len + second_len))`, or on with the search
abbrev pub or_on : ℕ → ℕ → Option ℕ → Option (ℕ × ℕ) → Option (ℕ × ℕ)
or_on index first_len none on = on
or_on index first_len (some second_len) on = some (index, first_len + second_len)

-- `find_sse_frame_delimiter`, of the bytes from the index on. A lone byte is no delimiter. A first
-- terminator of two bytes is a carriage return and a line feed.
unfoldable pub find_delimiter : Bytes → ℕ → Option (ℕ × ℕ)
unfolding terminator_len
find_delimiter [] index = none
find_delimiter (c ∷ []) index = none
find_delimiter (c ∷ d ∷ s) index =
    let near = find_delimiter (d ∷ s) (index + 1) in
    let far = find_delimiter s (index + 2) in
    if c == b'\r' && d == b'\n'
    then or_on index 2 (terminator_len s) far
    else if c == b'\n' || c == b'\r'
    then or_on index 1 (terminator_len (d ∷ s)) near
    else near

abbrev pub utf8_bom : Bytes
utf8_bom = 0xEF ∷ 0xBB ∷ 0xBF ∷ []

-- `strip_utf8_bom_once`, on `bom_checked` and the buffer
unfoldable pub strip_utf8_bom_once : Bool → Bytes → Bool × Bytes
unfolding starts_with text_eq
strip_utf8_bom_once true buffer = (true, buffer)
strip_utf8_bom_once false buffer =
    let prefix_len = min (length buffer) 3 in
    if starts_with utf8_bom buffer
    then (true, drop 3 buffer)
    else if length buffer == 0
    then (false, buffer)
    else if prefix_len == 3 || not (text_eq (take prefix_len buffer) (take prefix_len utf8_bom))
    then (true, buffer)
    else (false, buffer)
