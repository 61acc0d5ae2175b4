-- ===== src/Team/Summaries.antt =====
-- The summaries of a sequential team (src/app/subtask_orchestrator/mod.rs).
use vexcoder.Prelude.{
  ◌≡◌, refl, sym, ap, subst, ◌∙◌, Bool, true, false, ◌&&◌, Option, none, some, List, [], ◌∷◌, ◌++◌,
  append_assoc, arith, All, if◌then◌else◌, Text, text_eq, text_eq_refl,
}
use mathlib.Core.List.{map-append}
use vexcoder.Prelude.Assoc.{is_some}
use vexcoder.JoinIndex.Index.{has_text}
use vexcoder.JoinIndex.Live.{has_text-append}
use vexcoder.Team.Task.{SessionTask, ids}
use vexcoder.Team.Join.{
  JoinSummary, is_completed, tasks_before, add_priors, production_supersedes, summarised,
}
use vexcoder.Team.Order.{InOrder, IsDistinct}
use vexcoder.Team.Poll.{handoffs}

-- The summaries where each one supersedes just the tasks before it.
abbrev pub summary_of : Text → SessionTask → Option Text → List Text → List JoinSummary
summary_of id t none before = []
summary_of id t (some summary) before =
    record { message_id = t.id; agent_id = t.agent_id; summary = summary; supersedes = before } ∷ []

abbrev pub told_in_order : List Text → List SessionTask → List JoinSummary
told_in_order before [] = []
told_in_order before (t ∷ ts) =
    (if is_completed t.lifecycle_state then summary_of t.id t t.handoff_summary before else [])
    ++ told_in_order (before ++ (t.id ∷ [])) ts

tasks_before_lem :
    (front : List SessionTask) (t : SessionTask) (ts : List SessionTask)
    → All (λ (p : SessionTask). text_eq p.id t.id ≡ false) front
    → tasks_before t.id (front ++ (t ∷ ts)) ≡ some front
unfolding tasks_before
tasks_before_lem [] t ts h = let e = text_eq_refl t.id in rw e refl
tasks_before_lem (p ∷ front) t ts h = rw h.0 (let e = tasks_before_lem front t ts h.1 in rw e refl)

and_false : (a b c : Bool) → (a && (b && (c && false))) ≡ false
and_false a b c = ground arith

add_priors_lem :
    (agent : Text) (sup : List Text) (priors : List SessionTask)
    → All (λ (p : SessionTask). has_text p.id sup ≡ true) priors
    → add_priors agent sup priors ≡ sup
unfolding add_priors
add_priors_lem agent sup [] h = refl
add_priors_lem agent sup (p ∷ priors) h = rw h.0 (
    let e =
      and_false (is_completed p.lifecycle_state) (is_some p.handoff_summary)
        (text_eq p.agent_id agent) in
    rw e (add_priors_lem agent sup priors h.1))

known_before :
    (front : List SessionTask) (before : List Text)
    → All (λ (p : SessionTask). has_text p.id (before ++ ids front) ≡ true) front
known_before [] before = tt
known_before (p ∷ front) before = (
  ground (arith, has_text-append p.id before (p.id ∷ ids front), text_eq_refl p.id),
  subst (λ l. All (λ (q : SessionTask). has_text q.id l ≡ true) front)
      (append_assoc before (p.id ∷ []) (ids front)) (known_before front (before ++ (p.id ∷ []))),
)

module _ (P : Text → Type 0) where
  middle :
      (front : List SessionTask) (t : SessionTask) (ts : List SessionTask)
      → All P (ids (front ++ (t ∷ ts)))
      → P t.id
  middle [] t ts h = h.0
  middle (p ∷ front) t ts h = middle front t ts h.1

-- A list without repetition: what stands before an entry differs from it.
distinct_before :
    (front : List SessionTask) (t : SessionTask) (ts : List SessionTask)
    → IsDistinct (ids (front ++ (t ∷ ts)))
    → All (λ (p : SessionTask). text_eq p.id t.id ≡ false) front
distinct_before [] t ts d = tt
distinct_before (p ∷ front) t ts d =
    (middle (λ i. text_eq p.id i ≡ false) front t ts d.0, distinct_before front t ts d.1)

production_supersedes_lem :
    (front : List SessionTask) (t : SessionTask) (ts : List SessionTask)
    → IsDistinct (ids (front ++ (t ∷ ts)))
    → t.supersedes ≡ ids front
    → production_supersedes t (front ++ (t ∷ ts)) ≡ ids front
unfolding production_supersedes
production_supersedes_lem front t ts d s =
    rw (tasks_before_lem front t ts (distinct_before front t ts d), production_supersedes)
      (add_priors_lem t.agent_id t.supersedes front (
          subst (λ l. All (λ (q : SessionTask). has_text q.id l ≡ true) front) (sym s)
            (known_before front []))
        ∙ s)

summarised_lem :
    (t : SessionTask) (all : List SessionTask) (before : List Text) (h : Option Text)
    → production_supersedes t all ≡ before
    → summarised t all h ≡ summary_of t.id t h before
summarised_lem t all before none e = refl
summarised_lem t all before (some summary) e = rw e refl

pub handoffs-InOrder :
    (front : List SessionTask) (ms : List Text) (ts : List SessionTask)
    → IsDistinct (ids (front ++ ts))
    → InOrder (ids front) ms ts
    → handoffs (front ++ ts) ts ≡ told_in_order (ids front) ts
handoffs-InOrder front ms [] d o = refl
handoffs-InOrder front [] (t ∷ ts) d o = absurd o
handoffs-InOrder front (m ∷ ms) (t ∷ ts) d o =
    let now =
      summarised_lem t (front ++ (t ∷ ts)) (ids front) t.handoff_summary
        (production_supersedes_lem front t ts d o.1) in
    let same : ids (front ++ (t ∷ [])) ≡ ids front ++ (t.id ∷ []) =
      map-append (λ (t : SessionTask). t.id) front (t ∷ []) in
    let whole : (front ++ (t ∷ [])) ++ ts ≡ front ++ (t ∷ ts) = append_assoc front (t ∷ []) ts in
    let rest : handoffs ((front ++ (t ∷ [])) ++ ts) ts
        ≡ told_in_order (ids (front ++ (t ∷ []))) ts =
      handoffs-InOrder (front ++ (t ∷ [])) ms ts (subst (λ l. IsDistinct (ids l)) (sym whole) d)
        (subst (λ l. InOrder l ms ts) (sym same) o.3) in
    let rest' : handoffs (front ++ (t ∷ ts)) ts ≡ told_in_order (ids front ++ (t.id ∷ [])) ts =
      ap (λ l. handoffs l ts) (sym whole) ∙ (rest ∙ ap (λ l. told_in_order l ts) same) in
    rw (now, rest') refl
