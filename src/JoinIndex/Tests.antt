-- ===== src/JoinIndex/Tests.antt =====
-- Two agents, of which the second one supersedes the handoff of the first.
use vexcoder.Prelude.{◌≡◌, refl, false, [], ◌∷◌, any, codes, text_eq}
use vexcoder.JoinIndex.Index.{LiveJoinEntry, JoinIndex, new_index, post, live_entries}
use vexcoder.JoinIndex.Live.{post-supersedes}

abbrev first : JoinIndex
first = post new_index (codes "m1") (codes "a") (codes "draft") []

supersedes_example :
    any
      (λ (e : LiveJoinEntry). text_eq e.id (codes "m1"))
      (live_entries (post first (codes "m2") (codes "b") (codes "final") (codes "m1" ∷ [])))
    ≡ false
supersedes_example =
    post-supersedes first (codes "m2") (codes "b") (codes "final") (codes "m1" ∷ []) (codes "m1")
      (unfold text_eq in refl)
