-- ===== src/Normaliser/Crash.antt =====
-- A tag for a call that is never closed by a `>` of its own (src/api/stream/text_normaliser.rs).
use vexcoder.Prelude.{◌≡◌, ap, ◌∙◌, Text, codes, [], ◌++◌}
use vexcoder.Normaliser.Json.{Json}
use vexcoder.Normaliser.Loop.{crashed, push_text_chunk, push_call, normalise}
use vexcoder.Normaliser.Finds.{Without, find-past}
use vexcoder.Normaliser.Panics.{parse_single_tagged_tool_call-panics}
use vexcoder.Normaliser.Calls.{closing, in_text, round-call, normalise-panic}

-- Where a text holds one `<function=` with its `</function>` and no other `<`, and no `>` stands
-- between the two, the normalising of the text panics.
pub normalise-crashes :
    (json : Json) (prefix inner suffix : Text)
    → Without b'<' prefix
    → Without b'<' inner
    → Without b'>' inner
    → Without b'<' suffix
    → normalise json [] (in_text prefix inner suffix) ≡ crashed
normalise-crashes json prefix inner suffix hp hi closed hs =
    normalise-panic json prefix inner suffix (
      round-call json prefix inner suffix hp (λ s. find-past b'<' (codes "/function>") inner s hi)
        hs
      ∙ ap
          (push_call json (push_text_chunk [] prefix) (codes "<function=" ++ (inner ++ closing))
            suffix)
          ((parse_single_tagged_tool_call-panics json inner).1 closed))
