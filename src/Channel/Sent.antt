-- ===== src/Channel/Sent.antt =====
-- What is read of what was sent (src/runtime/task_state/peer_channel.rs).
use vexcoder.Prelude.{
  ◌≡◌, refl, sym, ap, ◌∙◌, inl, inr, ℕ, ◌+◌, Bool, true, false, not, ◌&&◌, ◌||◌, Option, none, some,
  List, [], ◌∷◌, ◌++◌, append_assoc, append-nil, map, arith, All, length, length-append, zero, suc,
  retain, take, is_empty, ltb, leb, Bool-cases, if◌then◌else◌, Text, byte_len, byte_len-append,
  len_utf8,
}
use vexcoder.Lines.{trim}
use vexcoder.Channel.Json.{
  IsJson, file_of, trim-line, not_blank, filled, read_lines-file, lines-file,
}
use vexcoder.Channel.File.{
  PeerMessage, Codec, Appended, channel_full, appended, max_channel_depth, max_channel_read_batch,
  max_channel_file_bytes, max_line_bytes, count_lines, append_message, addressed, read_one,
  read_loop, read_messages,
}

module _ (codec : Codec) where
  -- Whether a message is given to a reader.
  abbrev pub is_due : ℕ → Option Text → PeerMessage → Bool
  is_due after_ms filter m =
      leb (byte_len (codec.to_string m) + 1) max_line_bytes
      && (ltb after_ms m.sent_at && addressed filter m)

due :
    (long sent after : ℕ) (for_us : Bool) (m : PeerMessage)
    → (if ltb max_line_bytes long || false
        then none
        else if leb sent after
        then none
        else if for_us
        then some m
        else none)
      ≡ (if leb long max_line_bytes && (ltb after sent && for_us) then some m else none)
due long sent after for_us m = ground arith

module _ (codec : Codec) where
  read_one-line :
      (after_ms : ℕ) (filter : Option Text) (m : PeerMessage)
      → IsJson codec m
      → read_one codec after_ms filter (codec.to_string m ++ (b'\n' ∷ []))
        ≡ (if is_due codec after_ms filter m then some m else none)
  unfolding read_one
  read_one-line after_ms filter m json =
      let line = codec.to_string m in
      let long : byte_len (line ++ (b'\n' ∷ [])) ≡ byte_len line + 1 =
        byte_len-append line (b'\n' ∷ []) ∙ (unfold byte_len len_utf8 in refl) in
      rw (trim-line codec m json, filled codec m json, json.1, long)
        (due (byte_len line + 1) m.sent_at after_ms (addressed filter m) m)

  -- The batch behind a message that is taken: it is full, or the loop goes on.
  filling :
      (found results : List PeerMessage) (m : PeerMessage) (due rest : List PeerMessage) (room : ℕ)
      → length found ≡ length results + 1
      → length results + suc room ≡ max_channel_read_batch
      → found ≡ results ++ (m ∷ [])
      → ((r : ℕ) → length found + suc r ≡ max_channel_read_batch → rest ≡ found ++ take (suc r) due)
      → (if leb max_channel_read_batch (length found) then found else rest)
        ≡ results ++ (m ∷ take room due)
  filling found results m due rest zero n h f k =
      let full : leb max_channel_read_batch (length found) ≡ true = ground (arith, n, h) in
      rw full f
  filling found results m due rest (suc r) n h f k =
      let free : leb max_channel_read_batch (length found) ≡ false = ground (arith, n, h) in
      rw free (
        k r (omega (arith, n, h))
        ∙ (ap (λ l. l ++ take (suc r) due) f ∙ append_assoc results (m ∷ []) (take (suc r) due)))

  -- The loop takes what is due while there is room in the batch.
  read_loop-lines :
      (after_ms : ℕ) (filter : Option Text) (ms results : List PeerMessage) (room : ℕ)
      → All (IsJson codec) ms
      → length results + suc room ≡ max_channel_read_batch
      → read_loop codec after_ms filter results (map (λ m. codec.to_string m ++ (b'\n' ∷ [])) ms)
        ≡ results ++ take (suc room) (retain (is_due codec after_ms filter) ms)
  unfolding read_loop
  read_loop-lines after_ms filter [] results room json h = sym (append-nil results)
  read_loop-lines after_ms filter (m ∷ ms) results room json h =
      elim (Bool-cases (is_due codec after_ms filter m)) [
        | inr skip ↦
            let e : read_one codec after_ms filter (codec.to_string m ++ (b'\n' ∷ [])) ≡ none =
              read_one-line after_ms filter m json.0 ∙ (rw skip refl) in
            rw (e, skip, read_loop) (read_loop-lines after_ms filter ms results room json.1 h)
        | inl taken ↦
            let e : read_one codec after_ms filter (codec.to_string m ++ (b'\n' ∷ [])) ≡ some m =
              read_one-line after_ms filter m json.0 ∙ (rw taken refl) in
            rw (e, taken, read_loop)
              (filling (results ++ (m ∷ [])) results m (retain (is_due codec after_ms filter) ms) _
                room (length-append results (m ∷ [])) h refl
                (λ r k. read_loop-lines after_ms filter ms (results ++ (m ∷ [])) r json.1 k))
      ]

-- A reader of a channel is given, in the order of sending and up to 64 at a time, those of the
-- messages that were sent after the given time, to it or to all, and whose line has at most 8,192
-- bytes.
pub read_messages-Sent :
    (codec : Codec) (after_ms : ℕ) (filter : Option Text) (ms : List PeerMessage)
    → All (IsJson codec) ms
    → read_messages codec (some (file_of codec ms)) after_ms filter
      ≡ take max_channel_read_batch (retain (is_due codec after_ms filter) ms)
unfolding read_messages
read_messages-Sent codec after_ms filter ms json =
    ap (read_loop codec after_ms filter []) (read_lines-file codec ms json)
    ∙ read_loop-lines codec after_ms filter ms [] 63 json refl

file_of-append :
    (codec : Codec) (ms : List PeerMessage) (m : PeerMessage)
    → file_of codec ms ++ (codec.to_string m ++ (b'\n' ∷ [])) ≡ file_of codec (ms ++ (m ∷ []))
file_of-append codec [] m = refl
file_of-append codec (n ∷ ms) m =
    append_assoc (codec.to_string n) (b'\n' ∷ file_of codec ms) (codec.to_string m ++ (b'\n' ∷ []))
    ∙ ap (λ l. codec.to_string n ++ (b'\n' ∷ l)) (file_of-append codec ms m)

filled_count :
    (codec : Codec) (ms : List PeerMessage)
    → All (IsJson codec) ms
    → length (retain (λ l. not (is_empty (trim l))) (map codec.to_string ms)) ≡ length ms
filled_count codec [] json = refl
filled_count codec (m ∷ ms) json =
    rw (not_blank codec m json.0) (ap suc (filled_count codec ms json.1))

count_lines-file :
    (codec : Codec) (ms : List PeerMessage)
    → All (IsJson codec) ms
    → count_lines (some (file_of codec ms)) ≡ length ms
unfolding count_lines
count_lines-file codec ms json =
    ap (λ ls. length (retain (λ l. not (is_empty (trim l))) ls)) (lines-file codec ms json)
    ∙ filled_count codec ms json

swapped :
    (a b : ℕ) (x : Appended)
    → (if leb max_channel_depth a
        then channel_full
        else if leb max_channel_file_bytes b
        then channel_full
        else x)
      ≡ (if ltb a max_channel_depth && ltb b max_channel_file_bytes then x else channel_full)
swapped a b x = ground arith

-- Sending on a channel that holds fewer than 256 messages in less than 1 MiB leaves the channel
-- with the message behind the others; on any other one it fails.
pub append_message-Sent :
    (codec : Codec) (ms : List PeerMessage) (m : PeerMessage)
    → All (IsJson codec) ms
    → append_message codec (some (file_of codec ms)) m ≡ (
        if ltb (length ms) max_channel_depth
          && ltb (byte_len (file_of codec ms)) max_channel_file_bytes
        then appended (file_of codec (ms ++ (m ∷ [])))
        else channel_full)
unfolding append_message
append_message-Sent codec ms m json =
    rw (count_lines-file codec ms json, file_of-append codec ms m)
      (swapped (length ms) (byte_len (file_of codec ms))
        (appended (file_of codec (ms ++ (m ∷ [])))))
