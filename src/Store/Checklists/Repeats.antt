-- ===== src/Store/Checklists/Repeats.antt =====
-- What a checklist that is no longer running answers to its completion.
use self_imp_bin_eval.Base.{
  ◌≡◌, refl, ◌↔◌, String, Bool, true, false, if◌then◌else◌, String-discrete, ◌==◌, eq_of_==,
  ==_refl, List, [], ◌∷◌, none, some, arith,
}
use self_imp_bin_eval.Base.Int.{eq_of_parts}
use self_imp_bin_eval.Errors.{Result, ok, err, conflict}
use self_imp_bin_eval.Evalcore.Types.{
  ChecklistLimits, Dimension, CandidateQuestion, Weight, FinalQuestion,
}
use self_imp_bin_eval.Store.{Checklist, status_running, status_succeeded}
use self_imp_bin_eval.Store.Checklists.{
  Checklists, order_by, candidate_ordinal, get_checklist, same_list, same_dimension, same_candidate,
  same_weight, same_question, agrees, read_checklist, succeeded_row, compare_succeeded_checklist,
  check_submission, succeed_checklist,
}

pub same_list_iff :
    {A : Type 0} (same : A → A → Bool)
    → ((x y : A) → (same x y ≡ true) ↔ (x ≡ y))
    → (xs ys : List A) → (same_list same xs ys ≡ true) ↔ (xs ≡ ys)
unfolding same_list
same_list_iff same h [] [] = (λ e. refl, λ e. refl)
same_list_iff same h [] (y ∷ ys) = (λ e. ground arith, λ e. cc)
same_list_iff same h (x ∷ xs) [] = (λ e. ground arith, λ e. cc)
same_list_iff same h (x ∷ xs) (y ∷ ys) =
    let head = h x y in
    let ih = same_list_iff same h xs ys in
    (λ e. ground (arith, head.0, ih.0), λ e. ground (arith, head.1, ih.1))

same_weight_iff : (a b : Weight) → (same_weight a b ≡ true) ↔ (a ≡ b)
same_weight_iff a b = (
  λ e.
      let id : a.candidate_question_id ≡ b.candidate_question_id = ground arith in
      let rationale : a.rationale ≡ b.rationale = ground arith in
      let weight : a.weight ≡ b.weight = eq_of_parts _ _ (ground arith) in cc,
  λ e. rw e (ground arith),
)

same_dimension_iff : (a b : Dimension) → (same_dimension a b ≡ true) ↔ (a ≡ b)
same_dimension_iff a b = (
  λ e.
      let id : a.id ≡ b.id = ground arith in
      let name : a.name ≡ b.name = ground arith in
      let rubric : a.rubric ≡ b.rubric = ground arith in
      let rationale : a.rationale ≡ b.rationale = ground arith in
      let ordinal : a.ordinal ≡ b.ordinal = eq_of_parts _ _ (ground arith) in cc,
  λ e. rw e (ground arith),
)

same_candidate_iff : (a b : CandidateQuestion) → (same_candidate a b ≡ true) ↔ (a ≡ b)
same_candidate_iff a b = (
  λ e.
      let id : a.id ≡ b.id = ground arith in
      let dimension_id : a.dimension_id ≡ b.dimension_id = ground arith in
      let rationale : a.rationale ≡ b.rationale = ground arith in
      let question : a.question ≡ b.question = ground arith in
      let ordinal : a.ordinal ≡ b.ordinal = eq_of_parts _ _ (ground arith) in cc,
  λ e. rw e (ground arith),
)

same_question_iff : (a b : FinalQuestion) → (same_question a b ≡ true) ↔ (a ≡ b)
same_question_iff a b = (
  λ e.
      let id : a.id ≡ b.id = ground arith in
      let dimension_id : a.dimension_id ≡ b.dimension_id = ground arith in
      let source_candidate_id : a.source_candidate_id ≡ b.source_candidate_id = ground arith in
      let rationale : a.rationale ≡ b.rationale = ground arith in
      let question : a.question ≡ b.question = ground arith in
      let ordinal : a.ordinal ≡ b.ordinal = eq_of_parts _ _ (ground arith) in cc,
  λ e. rw e (ground arith),
)

-- A checklist that has ended is left as it is, whichever checklist is completed.
pub succeed_checklist-frame :
    (commit : Checklist → Result (Unit {0})) (s : Checklists) (id : String) (ds : List Dimension)
    (cs : List CandidateQuestion) (ws : List Weight) (qs : List FinalQuestion)
    (limits : ChecklistLimits) (j : String) (row : Checklist)
    → s j ≡ some row
    → (row.status == status_running) ≡ false
    → (succeed_checklist commit s id ds cs ws qs limits).0 j ≡ some row
unfolding succeed_checklist
succeed_checklist-frame commit s id ds cs ws qs limits j row h ended = ground (arith, eq_of_== j id)

-- The rows are in the order in which they are read back: dimensions, candidates and questions by
-- their ordinals, weights by those of their candidates.
abbrev pub InReadOrder :
    List Dimension → List CandidateQuestion → List Weight → List FinalQuestion → Type 0
InReadOrder ds cs ws qs =
    (order_by (λ (d : Dimension). d.ordinal) ds ≡ ds)
    × (order_by (λ (c : CandidateQuestion). c.ordinal) cs ≡ cs)
    × (order_by (candidate_ordinal cs) ws ≡ ws)
    × (order_by (λ (q : FinalQuestion). q.ordinal) qs ≡ qs)

agrees_iff :
    (row : Checklist) (ds : List Dimension) (cs : List CandidateQuestion) (ws : List Weight)
    (qs : List FinalQuestion)
    → (agrees (read_checklist none (succeeded_row row ds cs ws qs)) ds cs ws qs ≡ true)
      ↔ InReadOrder ds cs ws qs
agrees_iff row ds cs ws qs =
    let d =
      same_list_iff same_dimension same_dimension_iff (order_by (λ (d : Dimension). d.ordinal) ds)
        ds in
    let c =
      same_list_iff same_candidate same_candidate_iff
        (order_by (λ (c : CandidateQuestion). c.ordinal) cs) cs in
    let w = same_list_iff same_weight same_weight_iff (order_by (candidate_ordinal cs) ws) ws in
    let q =
      same_list_iff same_question same_question_iff (order_by (λ (q : FinalQuestion). q.ordinal) qs)
        qs in
    (
      λ e. (d.0 (ground arith), c.0 (ground arith), w.0 (ground arith), q.0 (ground arith)),
      λ e.
          let d1 = d.1 e.0 in
          let c1 = c.1 e.1 in let w1 = w.1 e.2 in let q1 = q.1 e.3 in ground arith,
    )

-- A row that is completed, as the store then holds it.
pub succeed_checklist-row :
    (commit : Checklist → Result (Unit {0})) (s : Checklists) (id : String) (ds : List Dimension)
    (cs : List CandidateQuestion) (ws : List Weight) (qs : List FinalQuestion)
    (limits : ChecklistLimits) (row : Checklist)
    → s id ≡ some row
    → row.status ≡ status_running
    → (succeed_checklist commit s id ds cs ws qs limits).1 ≡ ok tt
    → ((succeed_checklist commit s id ds cs ws qs limits).0 id
        ≡ some (succeeded_row row ds cs ws qs))
      × (check_submission ds cs ws qs limits ≡ ok tt)
unfolding succeed_checklist
succeed_checklist-row commit s id ds cs ws qs limits row h running e =
    let same = ==_refl id in
    let test : (row.status == status_running) ≡ true = rw running (==_refl status_running) in
    (ground arith, ground arith)

abbrev answer : Bool → Result (Unit {0})
answer b = if b then ok tt else err conflict

true_of_ok : (b : Bool) → answer b ≡ ok tt → b ≡ true
true_of_ok b e = ground arith

compare_succeeded_checklist_iff :
    (s : Checklists) (id : String) (ds : List Dimension) (cs : List CandidateQuestion)
    (ws : List Weight) (qs : List FinalQuestion) (row : Checklist)
    → s id ≡ some (succeeded_row row ds cs ws qs)
    → (compare_succeeded_checklist s id ds cs ws qs ≡ ok tt) ↔ InReadOrder ds cs ws qs
unfolding compare_succeeded_checklist get_checklist String-discrete
compare_succeeded_checklist_iff s id ds cs ws qs row h =
    let a = agrees_iff row ds cs ws qs in rw h (λ e. a.0 (true_of_ok _ e), λ e. rw (a.1 e) refl)

pub succeeded-not_running : (status_succeeded == status_running) ≡ false
unfolding String-discrete
succeeded-not_running = refl

pub succeed_checklist-ended :
    (commit : Checklist → Result (Unit {0})) (s : Checklists) (id : String) (ds : List Dimension)
    (cs : List CandidateQuestion) (ws : List Weight) (qs : List FinalQuestion)
    (limits : ChecklistLimits) (row : Checklist)
    → s id ≡ some row
    → (row.status == status_running) ≡ false
    → check_submission ds cs ws qs limits ≡ ok tt
    → succeed_checklist commit s id ds cs ws qs limits
      ≡ (s, compare_succeeded_checklist s id ds cs ws qs)
unfolding succeed_checklist
succeed_checklist-ended commit s id ds cs ws qs limits row h ended valid =
    rw valid (rw h (rw ended refl))

-- A completion that succeeded, sent again with the same rows, changes nothing. It succeeds again
-- exactly if the rows came in the order in which they are read back.
pub succeed_checklist-twice :
    (commit : Checklist → Result (Unit {0})) (s : Checklists) (id : String) (ds : List Dimension)
    (cs : List CandidateQuestion) (ws : List Weight) (qs : List FinalQuestion)
    (limits : ChecklistLimits) (row : Checklist)
    → s id ≡ some row
    → row.status ≡ status_running
    → (succeed_checklist commit s id ds cs ws qs limits).1 ≡ ok tt
    → let s1 = (succeed_checklist commit s id ds cs ws qs limits).0 in
      let again = succeed_checklist commit s1 id ds cs ws qs limits in
      (again.0 ≡ s1) × ((again.1 ≡ ok tt) ↔ InReadOrder ds cs ws qs)
succeed_checklist-twice commit s id ds cs ws qs limits row h running e =
    let s1 = (succeed_checklist commit s id ds cs ws qs limits).0 in
    let first = succeed_checklist-row commit s id ds cs ws qs limits row h running e in
    let ended =
      succeed_checklist-ended commit s1 id ds cs ws qs limits _ first.0 succeeded-not_running
        first.1 in
    rw ended (refl, compare_succeeded_checklist_iff s1 id ds cs ws qs row first.0)
