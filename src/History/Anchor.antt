-- ===== src/History/Anchor.antt =====
-- The preserved message stays where the returned index says (src/state/conversation/history.rs).
use vexcoder.Prelude.{
  ℕ, zero, suc, ◌+◌, ◌-◌, ◌≤◌, ◌<◌, min, max, ◌&&◌, ◌≡◌, refl, sym, ap, ◌∙◌, Bool, true, false, inl,
  inr, Option, some, List, [], ◌∷◌, arith, ◌==◌, ltb, leb, ltb→le, if_cases, Bool-cases, length,
  drop, get_elem?, any, map, subst,
}
use vexcoder.History.Message.{
  ContentBlock, text_block, tool_use, tool_result, thinking, thinking_data, server_tool_use,
  web_search_tool_result, Content, plain, blocks, ApiMessage, is_tool_result, is_user, starts_turn,
  content_has_tool_result, message_contains_tool_result,
}
use vexcoder.History.Condense.{condense_block, condense_content, condense_message, condense_all}
use vexcoder.History.Prune.{
  find_start, keep_from, near_anchor, prune_start, prune_message_history_preserving, compact_start,
  compact_for_context_overflow_preserving,
}
use vexcoder.History.Window.{find_start_here, find_start-le, get_elem?-drop}

get_elem?-length {ℓ} :
    {A : Type ℓ} (xs : List A) (i : ℕ) {a : A} → get_elem? xs i ≡ some a → i < length xs
get_elem?-length [] i e = cc
get_elem?-length (x ∷ xs) zero e = omega arith
get_elem?-length (x ∷ xs) (suc i) e = omega (arith, get_elem?-length xs i e)

-- The message that the returned index names.
abbrev pub preserved : List ApiMessage × ℕ → Option ApiMessage
preserved (kept, i) = get_elem? kept i

preserved-keep_from :
    (ms : List ApiMessage) (start i : ℕ)
    → start ≤ i
    → preserved (keep_from ms start i) ≡ get_elem? ms i
preserved-keep_from ms start i h =
    let e : start + (i - start) ≡ i = omega arith in
    get_elem?-drop start (i - start) ms ∙ ap (get_elem? ms) e

-- A search that begins at `first` does not pass a message behind it that starts a turn.
find_start-anchor :
    (stop : ℕ → Bool) (ms : List ApiMessage) (first i : ℕ) {m : ApiMessage}
    → first ≤ i
    → get_elem? ms i ≡ some m
    → starts_turn m ≡ true
    → find_start stop (drop first ms) first ≤ i
find_start-anchor stop ms first i h e t =
    let at : get_elem? (drop first ms) (i - first) ≡ get_elem? ms i =
      preserved-keep_from ms first i h in
    omega (arith, find_start-le stop (drop first ms) first (i - first) (at ∙ e) t)

prune_start-le :
    (ms : List ApiMessage) (most i : ℕ) {m : ApiMessage}
    → length ms - most ≤ i
    → get_elem? ms i ≡ some m
    → starts_turn m ≡ true
    → prune_start ms most i ≤ i
unfolding prune_start
prune_start-le ms most i h e t =
    let target = length ms - most in
    let far : ltb i target ≡ false = ground arith in
    let stop : ℕ → Bool = λ j. near_anchor ms most i && j == i in
    let low = get_elem?-length ms i e in
    let found = find_start-anchor (λ j. false) ms target i h e t in
    rw far (ground (arith, low, found))

compact_start-le :
    (ms : List ApiMessage) (keep i : ℕ) {m : ApiMessage}
    → get_elem? ms i ≡ some m
    → starts_turn m ≡ true
    → compact_start ms keep i ≤ i
unfolding compact_start
compact_start-le ms keep i e t =
    let target = length ms - keep in
    let low = get_elem?-length ms i e in
    elim (Bool-cases (ltb i target)) [
      | inl near ↦
          let here = find_start_here (λ j. j == i) (drop i ms) i (ground arith) in
          rw near (ground (arith, low, here))
      | inr far ↦
          let found = find_start-anchor (λ j. false) ms target i (ltb→le i target far) e t in
          rw far (ground (arith, low, found))
    ]

map-condense_block :
    (bs : List ContentBlock) → any is_tool_result bs ≡ false → map condense_block bs ≡ bs
unfolding condense_block
map-condense_block [] h = refl
map-condense_block (tool_result _ _ _ ∷ bs) h = cc
map-condense_block (text_block p q ∷ bs) h = ap (◌∷◌ (text_block p q)) (map-condense_block bs h)
map-condense_block (tool_use p q r s ∷ bs) h = ap (◌∷◌ (tool_use p q r s)) (map-condense_block bs h)
map-condense_block (thinking p q ∷ bs) h = ap (◌∷◌ (thinking p q)) (map-condense_block bs h)
map-condense_block (thinking_data p ∷ bs) h = ap (◌∷◌ (thinking_data p)) (map-condense_block bs h)
map-condense_block (server_tool_use p q r ∷ bs) h =
    ap (◌∷◌ (server_tool_use p q r)) (map-condense_block bs h)
map-condense_block (web_search_tool_result p q ∷ bs) h =
    ap (◌∷◌ (web_search_tool_result p q)) (map-condense_block bs h)

condense_content_same : (c : Content) → content_has_tool_result c ≡ false → condense_content c ≡ c
unfolding condense_content content_has_tool_result
condense_content_same (plain text) h = rw h
condense_content_same (blocks bs) h = ap blocks (map-condense_block bs h)

condense_message_same : (m : ApiMessage) → starts_turn m ≡ true → condense_message m ≡ m
unfolding condense_message starts_turn message_contains_tool_result
condense_message_same m h =
    let quiet : content_has_tool_result m.content ≡ false = ground arith in
    let same : condense_content m.content ≡ m.content = condense_content_same m.content quiet in
    if_cases (λ (r : ApiMessage). r ≡ m) (is_user m) _ _
      (λ _. ap (λ (c : Content). record m { content = c }) same) (λ _. refl)

get_elem?-condense_all :
    (ms : List ApiMessage) (i : ℕ) {m : ApiMessage}
    → get_elem? ms i ≡ some m
    → starts_turn m ≡ true
    → get_elem? (condense_all ms) i ≡ some m
unfolding condense_all
get_elem?-condense_all [] i e t = cc
get_elem?-condense_all (x ∷ ms) zero {m} e t =
    let same : x ≡ m = cc in
    let turn : starts_turn x ≡ true =
      subst (λ (n : ApiMessage). starts_turn n ≡ true) (sym same) t in
    ap some (condense_message_same x turn ∙ same)
get_elem?-condense_all (x ∷ ms) (suc i) e t = get_elem?-condense_all ms i e t

-- Pruning: a message that starts a turn, inside the window of `most` messages, is the one that the
-- returned index names.
pub prune_message_history_preserving-Preserves :
    (ms : List ApiMessage) (most i : ℕ) (m : ApiMessage)
    → length ms - most ≤ i
    → get_elem? ms i ≡ some m
    → starts_turn m ≡ true
    → preserved (prune_message_history_preserving ms most i) ≡ some m
unfolding prune_message_history_preserving
prune_message_history_preserving-Preserves [] most i m h e t = cc
prune_message_history_preserving-Preserves (x ∷ rest) most i m h e t =
    let ms = x ∷ rest in
    let low = get_elem?-length ms i e in
    if_cases (λ (r : List ApiMessage × ℕ). preserved r ≡ some m) (leb (length ms) most) _ _
      (λ _. let same : min i (length ms - 1) ≡ i = omega (arith, low) in ap (get_elem? ms) same ∙ e)
      (λ _. preserved-keep_from ms (prune_start ms most i) i (prune_start-le ms most i h e t) ∙ e)

-- Compaction after a context overflow: a message that starts a turn, wherever it stands, is kept as
-- it is, and the returned index names it.
pub compact_for_context_overflow_preserving-Preserves :
    (ms : List ApiMessage) (keep i : ℕ) (m : ApiMessage)
    → get_elem? ms i ≡ some m
    → starts_turn m ≡ true
    → preserved (compact_for_context_overflow_preserving ms keep i) ≡ some m
unfolding compact_for_context_overflow_preserving
compact_for_context_overflow_preserving-Preserves [] keep i m e t = cc
compact_for_context_overflow_preserving-Preserves (x ∷ rest) keep i m e0 t =
    let ms = condense_all (x ∷ rest) in
    let size = max keep 1 in
    let e = get_elem?-condense_all (x ∷ rest) i e0 t in
    let low = get_elem?-length ms i e in
    let same : min i (length ms - 1) ≡ i = omega (arith, low) in
    let start = compact_start ms size i in
    rw same (
      if_cases (λ (r : List ApiMessage × ℕ). preserved r ≡ some m) (leb (length ms) size) _ _
        (λ _. e) (λ _. preserved-keep_from ms start i (compact_start-le ms size i e t) ∙ e))
