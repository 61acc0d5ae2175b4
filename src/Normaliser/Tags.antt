-- ===== src/Normaliser/Tags.antt =====
-- Tags that are incomplete at the end of a text, and the wrappers round a call
-- (src/api/stream/text_normaliser.rs).
use vexcoder.Prelude.{Bool, Option, none, some, List, [], ◌∷◌, any, map, if◌then◌else◌, Text, codes}
use vexcoder.Lines.{starts_with, ascii_lowercase}
use vexcoder.Normaliser.Search.{Found, rfind, delete, delete_from}

abbrev pub candidates : List Text
candidates =
    codes "<function="
    ∷ codes "<function"
    ∷ codes "</function>"
    ∷ codes "</function"
    ∷ codes "<parameter="
    ∷ codes "<parameter"
    ∷ codes "</parameter>"
    ∷ codes "</parameter"
    ∷ codes "<tool_call>"
    ∷ codes "<tool_call"
    ∷ codes "</tool_call>"
    ∷ codes "</tool_call"
    ∷ []

unfoldable pub looks_like_partial_tool_tag : Text → Bool
unfolding starts_with
looks_like_partial_tool_tag suffix =
    any (λ candidate. starts_with (map ascii_lowercase suffix) candidate) candidates

unfoldable pub strip_tool_call_wrappers : Text → Text
unfolding delete_from
strip_tool_call_wrappers text = delete (codes "</tool_call>") (delete (codes "<tool_call>") text)

abbrev split_at_open : Text → Option Found → Text × Text
split_at_open text none = (text, [])
split_at_open text (some (before, suffix)) =
    if looks_like_partial_tool_tag suffix then (before, suffix) else (text, [])

unfoldable pub split_incomplete_tool_tag_suffix : Text → Text × Text
unfolding rfind looks_like_partial_tool_tag
split_incomplete_tool_tag_suffix text = split_at_open text (rfind b'<' text)

abbrev pub strip_incomplete_tool_tag_suffix : Text → Text
strip_incomplete_tool_tag_suffix text = (split_incomplete_tool_tag_suffix text).0
