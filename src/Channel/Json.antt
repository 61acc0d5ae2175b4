-- ===== src/Channel/Json.antt =====
-- The lines of a file of messages (src/runtime/task_state/peer_channel.rs).
use vexcoder.Prelude.{
  ◌≡◌, refl, sym, ap, subst, ◌∙◌, ◌≤◌, false, some, List, [], ◌∷◌, ◌++◌, append_assoc, map, arith,
  All, All-append, is_empty, ◌==◌, Text, is_whitespace,
}
use vexcoder.Lines.{trim, trim_end_step, trim_start, trim_end, lines}
use vexcoder.Channel.File.{PeerMessage, Codec, read_lines}

-- What the JSON library documents: a message is written as an object on one line, with every
-- control character escaped, and is read back.
abbrev pub IsJson : Codec → PeerMessage → Type 0
IsJson codec m =
    ((body : Text) × (codec.to_string m ≡ b'{' ∷ (body ++ (b'}' ∷ []))) × All (λ c. 32 ≤ c) body)
    × (codec.from_str (codec.to_string m) ≡ some m)

module _ (codec : Codec) where
  -- The file of a channel on which the given messages were sent.
  abbrev pub file_of : List PeerMessage → Text
  file_of [] = []
  file_of (m ∷ ms) = codec.to_string m ++ (b'\n' ∷ file_of ms)

trim_end-close : (body : Text) → trim_end (body ++ (b'}' ∷ b'\n' ∷ [])) ≡ body ++ (b'}' ∷ [])
unfolding trim_end is_whitespace
trim_end-close [] = refl
trim_end-close (c ∷ []) = refl
trim_end-close (c ∷ d ∷ body) = let ih = trim_end-close (d ∷ body) in rw ih refl

-- A line of a file is cut off at its line feed.
read_lines-line :
    (line rest : Text)
    → All (λ c. 32 ≤ c) line
    → read_lines (line ++ (b'\n' ∷ rest)) ≡ (line ++ (b'\n' ∷ [])) ∷ read_lines rest
unfolding read_lines
read_lines-line [] rest h = refl
read_lines-line (c ∷ line) rest h =
    let e : (c == b'\n') ≡ false = ground (arith, h.0) in
    let ih = read_lines-line line rest h.1 in rw e (rw ih refl)

lines-line :
    (line rest : Text) → All (λ c. 32 ≤ c) line → lines (line ++ (b'\n' ∷ rest)) ≡ line ∷ lines rest
unfolding lines
lines-line [] rest h = refl
lines-line (c ∷ line) rest h =
    let e : (c == b'\n') ≡ false = ground (arith, h.0) in
    let r : (c == b'\r') ≡ false = ground (arith, h.0) in
    let ih = lines-line line rest h.1 in rw e (rw r (rw ih refl))

module _ (codec : Codec) where
  printable : (m : PeerMessage) → IsJson codec m → All (λ c. 32 ≤ c) (codec.to_string m)
  printable m json =
      let ((body, e, h), _) = json in
      subst (All (λ c. 32 ≤ c)) (sym e)
        (omega arith, All-append (λ c. 32 ≤ c) body (b'}' ∷ []) h (omega arith, tt))

  pub trim-line :
      (m : PeerMessage)
      → IsJson codec m
      → trim (codec.to_string m ++ (b'\n' ∷ [])) ≡ codec.to_string m
  unfolding trim_start is_whitespace
  trim-line m json =
      let ((body, e, _), _) = json in
      subst (λ l. trim (l ++ (b'\n' ∷ [])) ≡ l) (sym e)
        (ap (λ l. trim_end (b'{' ∷ l)) (append_assoc body (b'}' ∷ []) (b'\n' ∷ []))
          ∙ trim_end-close (b'{' ∷ body))

  pub not_blank : (m : PeerMessage) → IsJson codec m → is_empty (trim (codec.to_string m)) ≡ false
  unfolding trim_start trim_end is_whitespace
  not_blank m json =
      let ((body, e, _), _) = json in
      subst (λ l. is_empty (trim l) ≡ false) (sym e)
        (elim (trim_end (body ++ (b'}' ∷ []))) as (λ x. is_empty (trim_end_step b'{' x) ≡ false) [
          | [] ↦ refl
          | d ∷ rest ↦ refl
        ])

  pub filled : (m : PeerMessage) → IsJson codec m → is_empty (codec.to_string m) ≡ false
  filled m json = let ((body, e, _), _) = json in ap is_empty e

  pub read_lines-file :
      (ms : List PeerMessage)
      → All (IsJson codec) ms
      → read_lines (file_of codec ms) ≡ map (λ m. codec.to_string m ++ (b'\n' ∷ [])) ms
  unfolding read_lines
  read_lines-file [] json = refl
  read_lines-file (m ∷ ms) json =
      read_lines-line (codec.to_string m) (file_of codec ms) (printable m json.0)
      ∙ ap (◌∷◌ (codec.to_string m ++ (b'\n' ∷ []))) (read_lines-file ms json.1)

  pub lines-file :
      (ms : List PeerMessage)
      → All (IsJson codec) ms
      → lines (file_of codec ms) ≡ map codec.to_string ms
  unfolding lines
  lines-file [] json = refl
  lines-file (m ∷ ms) json =
      lines-line (codec.to_string m) (file_of codec ms) (printable m json.0)
      ∙ ap (◌∷◌ (codec.to_string m)) (lines-file ms json.1)
