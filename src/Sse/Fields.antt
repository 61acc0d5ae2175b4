-- ===== src/Sse/Fields.antt =====
-- A frame is read back as it is written (src/api/stream/sse_framing.rs).
use vexcoder.Prelude.{
  ◌≡◌, refl, sym, ap, ◌∙◌, false, ◌||◌, none, some, List, [], ◌∷◌, ◌++◌, append_assoc, append-nil,
  arith, map, ◌==◌, Text, codes, All, All-append, is_empty, if◌then◌else◌,
}
use vexcoder.Lines.{join_lines}
use vexcoder.Sse.Frame.{
  Host, Decoder, Fields, split_lf, replace_crlf, cr_to_lf, normalise_sse_line_endings, read_line,
  read_lines, decode_frame_payload, parse_frame_text, finish_frame,
}

-- A text on one line
abbrev pub OneLine : Text → Type 0
OneLine = All (λ c. (c == b'\n' || c == b'\r') ≡ false)

abbrev NoCr : Text → Type 0
NoCr = All (λ c. (c == b'\r') ≡ false)

OneLine-NoCr : (s : Text) → OneLine s → NoCr s
OneLine-NoCr [] h = tt
OneLine-NoCr (c ∷ s) h = (ground (arith, h.0), OneLine-NoCr s h.1)

split_lf-line : (line s : Text) → OneLine line → split_lf (line ++ (b'\n' ∷ s)) ≡ line ∷ split_lf s
unfolding split_lf
split_lf-line [] s h = refl
split_lf-line (c ∷ line) s h = ground (arith, split_lf-line line s h.1, h.0)

split_lf-last : (line : Text) → OneLine line → split_lf line ≡ line ∷ []
unfolding split_lf
split_lf-last [] h = refl
split_lf-last (c ∷ line) h = ground (arith, split_lf-last line h.1, h.0)

split_lf-join_lines :
    (line : Text) (lines : List Text)
    → OneLine line
    → All OneLine lines
    → split_lf (join_lines (line ∷ lines)) ≡ line ∷ lines
unfolding join_lines
split_lf-join_lines line [] h k = split_lf-last line h
split_lf-join_lines line (next ∷ rest) h k =
    split_lf-line line (join_lines (next ∷ rest)) h
    ∙ ap (◌∷◌ line) (split_lf-join_lines next rest k.0 k.1)

join_lines-NoCr : (lines : List Text) → All OneLine lines → NoCr (join_lines lines)
unfolding join_lines
join_lines-NoCr [] h = tt
join_lines-NoCr (line ∷ []) h = OneLine-NoCr line h.0
join_lines-NoCr (line ∷ next ∷ rest) h =
    All-append _ line (b'\n' ∷ join_lines (next ∷ rest)) (OneLine-NoCr line h.0)
      (refl, join_lines-NoCr (next ∷ rest) h.1)

replace_crlf-NoCr : (s : Text) → NoCr s → replace_crlf s ≡ s
unfolding replace_crlf
replace_crlf-NoCr [] h = refl
replace_crlf-NoCr (c ∷ []) h = refl
replace_crlf-NoCr (c ∷ d ∷ s) h = ground (arith, h.0, replace_crlf-NoCr (d ∷ s) h.1)

map-cr_to_lf : (s : Text) → NoCr s → map cr_to_lf s ≡ s
map-cr_to_lf [] h = refl
map-cr_to_lf (c ∷ s) h = ground (arith, h.0, map-cr_to_lf s h.1)

normalise_sse_line_endings-NoCr : (s : Text) → NoCr s → normalise_sse_line_endings s ≡ s
unfolding normalise_sse_line_endings
normalise_sse_line_endings-NoCr s h = ap (map cr_to_lf) (replace_crlf-NoCr s h) ∙ map-cr_to_lf s h

abbrev pub data_line : Text → Text
data_line line = codes "data: " ++ line

-- A frame with an event and some lines of data
abbrev pub write_frame : Text → List Text → Text
write_frame frame_kind lines = join_lines ((codes "event: " ++ frame_kind) ∷ map data_line lines)

data_lines-OneLine : (lines : List Text) → All OneLine lines → All OneLine (map data_line lines)
data_lines-OneLine [] h = tt
data_lines-OneLine (line ∷ rest) h =
    ((refl, (refl, (refl, (refl, (refl, (refl, h.0)))))), data_lines-OneLine rest h.1)

module _ {D E : Type 0} (host : Host D E) where
  read_lines-data :
      (f : Fields D) (lines : List Text)
      → read_lines host f (map data_line lines) ≡ record f { data_lines = f.data_lines ++ lines }
  unfolding read_lines read_line
  read_lines-data f [] =
      ap (λ (l : List Text). record f { data_lines = l }) (sym (append-nil f.data_lines))
  read_lines-data f (line ∷ rest) =
      read_lines-data (record f { data_lines = f.data_lines ++ (line ∷ []) }) rest
      ∙ ap (λ (l : List Text). record f { data_lines = l })
          (append_assoc f.data_lines (line ∷ []) rest)

  -- A frame of an event and at least one line of data, none of which holds a line break: the adapter
  -- is called with the event and the lines joined by line feeds, its state is the one it answers
  -- with, the id and the delay stay, and its envelopes are all that comes out. If the lines joined
  -- are empty, the adapter is not called: the decoder stays as it is, and nothing comes out.
  pub parse_frame_text-write_frame :
      (d : Decoder D) (frame_kind line : Text) (lines : List Text)
      → OneLine frame_kind
      → All OneLine (line ∷ lines)
      → let payload = join_lines (line ∷ lines) in
        let answer = host.decode d.adapter (some frame_kind) payload in
        parse_frame_text host d (write_frame frame_kind (line ∷ lines))
        ≡ (if is_empty payload then (d, []) else (record d { adapter = answer.0 }, answer.1))
  unfolding parse_frame_text decode_frame_payload
  parse_frame_text-write_frame d frame_kind line lines h k =
      let rest = map data_line (line ∷ lines) in
      let head : OneLine (codes "event: " ++ frame_kind) =
        (refl, (refl, (refl, (refl, (refl, (refl, (refl, h))))))) in
      let all = data_lines-OneLine (line ∷ lines) k in
      let same =
        normalise_sse_line_endings-NoCr (write_frame frame_kind (line ∷ lines))
          (join_lines-NoCr ((codes "event: " ++ frame_kind) ∷ rest) (head, all)) in
      let split = split_lf-join_lines (codes "event: " ++ frame_kind) rest head all in
      let start : Fields D = record { decoder = d; frame_kind = none; data_lines = [] } in
      let named : Fields D = record start { frame_kind = some frame_kind } in
      let finish = λ (frame : Text) (f : Fields D). finish_frame host frame f f.data_lines in
      let fields = ap (read_lines host start) split ∙ read_lines-data named (line ∷ lines) in
      ap (λ (frame : Text). finish frame (read_lines host start (split_lf frame))) same
      ∙ ap (finish (write_frame frame_kind (line ∷ lines))) fields
