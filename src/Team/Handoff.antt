-- ===== src/Team/Handoff.antt =====
-- What a sequential team hands over (src/app/subtask_orchestrator/mod.rs).
use vexcoder.Prelude.{
  ◌≡◌, refl, sym, ap, subst, ◌∙◌, ◌⊎◌, inl, inr, ℕ, Bool, true, false, Option, none, some, List, [],
  ◌∷◌, ◌++◌, arith, All, is_empty, if◌then◌else◌, Text, text_eq, text_eq_refl,
}
use vexcoder.Prelude.Assoc.{lookup}
use vexcoder.JoinIndex.Index.{LiveJoinEntry, new_index, has_text, live_entries}
use vexcoder.JoinIndex.Live.{has_text-append}
use vexcoder.Team.Task.{SessionTask, TaskState, ids}
use vexcoder.Team.Store.{ok, missing, saved, load, load_or_new}
use vexcoder.Team.Join.{
  handoff_line, format_live_handoff, JoinSummary, JoinOutcome, Saves, post_all, hand_over,
  apply_join_outcome, is_completed,
}
use vexcoder.Team.Order.{InOrder, IsDistinct}
use vexcoder.Team.Scheduled.{InFile}
use vexcoder.Team.Poll.{handoffs}
use vexcoder.Team.Posting.{entry_of, message_ids, IsLast, post_all-entries, live-IsLast}
use vexcoder.Team.Summaries.{summary_of, told_in_order, handoffs-InOrder}

module _ (P : Text → Type 0) where
  at_last :
      (front : List JoinSummary) (last : JoinSummary)
      → All P (message_ids (front ++ (last ∷ [])))
      → P last.message_id
  at_last [] last h = h.0
  at_last (x ∷ front) last h = at_last front last h.1

-- What a task adds to the summaries.
abbrev Head : SessionTask → List Text → List JoinSummary → Type 0
Head t before xs =
    (xs ≡ [])
    ⊎ ((x : JoinSummary) × (xs ≡ x ∷ []) × (x.message_id ≡ t.id) × (x.supersedes ≡ before))

head_lem :
    (t : SessionTask) (before : List Text) (b : Bool) (h : Option Text)
    → Head t before (if b then summary_of t.id t h before else [])
head_lem t before false h = inl refl
head_lem t before true none = inl refl
head_lem t before true (some s) = inr (_, refl, refl, refl)

told_in_order-All :
    (P : Text → Type 0) (before : List Text) (ts : List SessionTask)
    → All P (ids ts)
    → All P (message_ids (told_in_order before ts))
told_in_order-All P before [] h = tt
told_in_order-All P before (t ∷ ts) h =
    let rest = told_in_order-All P (before ++ (t.id ∷ [])) ts h.1 in
    elim (head_lem t before (is_completed t.lifecycle_state) t.handoff_summary) [
      | inl e ↦ rw e rest
      | inr (x, e, same, _) ↦ rw e (subst P (sym same) h.0, rest)
    ]

-- What the proof by induction on the tasks needs of the last summary.
abbrev LastOf : List Text → List JoinSummary → JoinSummary → Type 0
LastOf before front last =
    IsLast front last
    × IsDistinct (message_ids (front ++ (last ∷ [])))
    × ((i : Text) → has_text i before ≡ true → has_text i last.supersedes ≡ true)

cons-inj : {A : Type 0} {x y : A} {a b : List A} → (x ∷ a) ≡ (y ∷ b) → (x ≡ y) × (a ≡ b)
cons-inj h = (cc, cc)

module _ (t : SessionTask) (before : List Text) (x : JoinSummary) where
  LastOf-single :
      (last : JoinSummary)
      → x ≡ last
      → x.message_id ≡ t.id
      → x.supersedes ≡ before
      → has_text t.id before ≡ false
      → LastOf before [] last
  LastOf-single last e same sup new = subst (LastOf before []) e (
    (
      tt,
      (subst (λ l. has_text x.message_id l ≡ false) (sym sup)
          (subst (λ i. has_text i before ≡ false) (sym same) new)),
      tt,
    ),
    (tt, tt),
    λ i h. subst (λ l. has_text i l ≡ true) (sym sup) h,
  )

  LastOf-cons :
      (front : List JoinSummary) (last : JoinSummary)
      → x.message_id ≡ t.id
      → x.supersedes ≡ before
      → has_text last.message_id before ≡ false
      → All (λ i. text_eq t.id i ≡ false) (message_ids (front ++ (last ∷ [])))
      → LastOf (before ++ (t.id ∷ [])) front last
      → LastOf before (x ∷ front) last
  LastOf-cons front last same sup new d (l, dd, k) = (
    (
      (
        k x.message_id (
            ground
              (arith, has_text-append x.message_id before (t.id ∷ []), text_eq_refl t.id, same)),
        l.0,
      ),
      l.1,
      (subst (λ b. has_text last.message_id b ≡ false) (sym sup) new, l.2),
    ),
    (
      subst (λ j. All (λ i. text_eq j i ≡ false) (message_ids (front ++ (last ∷ [])))) (sym same) d,
      dd,
    ),
    λ i h. k i (ground (arith, has_text-append i before (t.id ∷ []), h)),
  )

fresh-add :
    (j : Text) (before is : List Text)
    → All (λ i. has_text i before ≡ false) is
    → All (λ i. text_eq j i ≡ false) is
    → All (λ i. has_text i (before ++ (j ∷ [])) ≡ false) is
fresh-add j before [] n d = tt
fresh-add j before (i ∷ is) n d =
    (ground (arith, has_text-append i before (j ∷ []), n.0, d.0), fresh-add j before is n.1 d.1)

told_in_order-LastOf :
    (before : List Text) (ts : List SessionTask) (front : List JoinSummary) (last : JoinSummary)
    → All (λ i. has_text i before ≡ false) (ids ts)
    → IsDistinct (ids ts)
    → told_in_order before ts ≡ front ++ (last ∷ [])
    → LastOf before front last
told_in_order-LastOf before [] [] last n d e = absurd cc
told_in_order-LastOf before [] (f ∷ front) last n d e = absurd cc
told_in_order-LastOf before (t ∷ ts) front last n d e =
    let later : List Text = before ++ (t.id ∷ []) in
    let new = fresh-add t.id before (ids ts) n.1 d.0 in
    elim (head_lem t before (is_completed t.lifecycle_state) t.handoff_summary) [
      | inl nothing ↦
          let (l, dd, k) =
            told_in_order-LastOf later ts front last new d.1
              (subst (λ h. h ++ told_in_order later ts ≡ front ++ (last ∷ [])) nothing e) in
          (l, dd, λ i h. k i (ground (arith, has_text-append i before (t.id ∷ []), h)))
      | inr (x, one, same, sup) ↦
          (elim front
              as (λ front.
                (x ∷ told_in_order later ts) ≡ (front ++ (last ∷ [])) → LastOf before front last) [
                  | [] ↦ λ q. LastOf-single t before x last (cons-inj q).0 same sup n.0
                  | f ∷ front ↦ λ q.
                      let (p, r) = cons-inj q in
                      let all : All (λ i. has_text i before ≡ false)
                          (message_ids (front ++ (last ∷ []))) =
                        subst (λ l. All (λ i. has_text i before ≡ false) (message_ids l)) r
                          (told_in_order-All (λ i. has_text i before ≡ false) later ts n.1) in
                      let other : All (λ i. text_eq t.id i ≡ false)
                          (message_ids (front ++ (last ∷ []))) =
                        subst (λ l. All (λ i. text_eq t.id i ≡ false) (message_ids l)) r
                          (told_in_order-All (λ i. text_eq t.id i ≡ false) later ts d.0) in
                      subst (λ g. LastOf before (g ∷ front) last) p
                        (LastOf-cons t before x front last same sup
                          (at_last (λ i. has_text i before ≡ false) front last all) other
                          (told_in_order-LastOf later ts front last new d.1 r))
                ])
            (subst (λ h. h ++ told_in_order later ts ≡ front ++ (last ∷ [])) one e)
    ]

none_before : (is : List Text) → All (λ i. has_text i [] ≡ false) is
none_before [] = tt
none_before (i ∷ is) = (refl, none_before is)

Fresh-empty : (ks : List Text) → All (λ k. lookup {V = LiveJoinEntry} k [] ≡ none) ks
unfolding lookup
Fresh-empty [] = tt
Fresh-empty (k ∷ ks) = (refl, Fresh-empty ks)

abbrev pub all_save : Saves
all_save = record { index_saves = true; parent_saves = true; evidence_saves = true }

is_empty-append : {A : Type 0} (front : List A) (a : A) → is_empty (front ++ (a ∷ [])) ≡ false
is_empty-append [] a = refl
is_empty-append (x ∷ front) a = refl

live-summaries :
    (members : List Text) (ts : List SessionTask) (front : List JoinSummary) (last : JoinSummary)
    → InOrder [] members ts
    → IsDistinct (ids ts)
    → handoffs ts ts ≡ front ++ (last ∷ [])
    → live_entries (post_all new_index (front ++ (last ∷ []))) ≡ entry_of last ∷ []
unfolding new_index
live-summaries members ts front last ordered d e =
    let (l, distinct, _) =
      told_in_order-LastOf [] ts front last (none_before (ids ts)) d
        (sym (handoffs-InOrder [] members ts d ordered) ∙ e) in
    live-IsLast (post_all new_index (front ++ (last ∷ []))) front last
      (post_all-entries new_index (front ++ (last ∷ []))
        (Fresh-empty (message_ids (front ++ (last ∷ [])))) distinct)
      l

-- For the tasks of a sequential team, in order and with distinct identifiers, whose handoffs end
-- with a last one: a join of these handoffs into a parent task without an index, where the disk
-- can save, gives the last one alone, however many there are, and stores its line as the handoff
-- of the parent task.
pub apply_join_outcome-Last :
    (loaded_at now : ℕ) (s : TaskState) (members : List Text) (o : JoinOutcome)
    (front : List JoinSummary) (last : JoinSummary)
    → InOrder [] members s.session_tasks
    → IsDistinct (ids s.session_tasks)
    → o.summaries ≡ handoffs s.session_tasks s.session_tasks
    → handoffs s.session_tasks s.session_tasks ≡ front ++ (last ∷ [])
    → let joined =
        apply_join_outcome loaded_at now all_save
          (record { index = missing; parent = saved s })
          o in
      (joined.0 ≡ ok (entry_of last ∷ []))
      × InFile (λ t. t.handoff_summary ≡ some (handoff_line (entry_of last))) joined.1.parent
unfolding apply_join_outcome hand_over load load_or_new format_live_handoff live_entries new_index
apply_join_outcome-Last loaded_at now s members o front last ordered d told split =
    let e : o.summaries ≡ front ++ (last ∷ []) = told ∙ split in
    let some_there : is_empty o.summaries ≡ false = ap is_empty e ∙ is_empty-append front last in
    let live : live_entries (post_all new_index o.summaries) ≡ entry_of last ∷ [] =
      ap (λ xs. live_entries (post_all new_index xs)) e
      ∙ live-summaries members s.session_tasks front last ordered d split in
    rw some_there (ap ok live, ap (λ es. some (format_live_handoff es)) live)
