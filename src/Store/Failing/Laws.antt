-- ===== src/Store/Failing/Laws.antt =====
-- How a checklist ends: once, and for good.
use self_imp_bin_eval.Base.{
  ◌≡◌, refl, String, Bool, true, false, ◌==◌, ==_refl, List, [], ◌∷◌, some, String-discrete, arith,
}
use self_imp_bin_eval.Errors.{Message, LimitDiagnostic, Details, Result, ok, err, conflict}
use self_imp_bin_eval.Evalcore.Types.{
  ChecklistLimits, Dimension, CandidateQuestion, Weight, FinalQuestion,
}
use self_imp_bin_eval.Failure.{validate_details}
use self_imp_bin_eval.Store.{Checklist, status_running, status_failed}
use self_imp_bin_eval.Store.Checklists.{
  Checklists, get_checklist, same_list, succeeded_row, check_submission, succeed_checklist,
  compare_succeeded_checklist,
}
use self_imp_bin_eval.Store.Checklists.Repeats.{
  succeed_checklist-row, succeed_checklist-ended, succeeded-not_running,
}
use self_imp_bin_eval.Store.Failing.{
  same_diagnostic, same_bool, failed_row, equal_details, compare_failed_checklist, fail_checklist,
}

pub same_list_refl :
    {A : Type 0} (same : A → A → Bool)
    → ((x : A) → same x x ≡ true)
    → (xs : List A) → same_list same xs xs ≡ true
unfolding same_list
same_list_refl same h [] = refl
same_list_refl same h (x ∷ xs) = rw (h x) (same_list_refl same h xs)

same_diagnostic_refl : (d : LimitDiagnostic) → same_diagnostic d d ≡ true
same_diagnostic_refl d = ground arith

same_bool_refl : (b : Bool) → same_bool b b ≡ true
same_bool_refl true = refl
same_bool_refl false = refl

pub failed-not_running : (status_failed == status_running) ≡ false
unfolding String-discrete
failed-not_running = refl

compare_succeeded_checklist-failed :
    (s : Checklists) (id : String) (row : Checklist) (details : Details) (ds : List Dimension)
    (cs : List CandidateQuestion) (ws : List Weight) (qs : List FinalQuestion)
    → s id ≡ some (failed_row row details)
    → compare_succeeded_checklist s id ds cs ws qs ≡ err conflict
unfolding compare_succeeded_checklist get_checklist String-discrete
compare_succeeded_checklist-failed s id row details ds cs ws qs h = rw h refl

module _ (text : Message → String) where
  pub equal_details_refl : (d : Details) → equal_details text d d ≡ true
  unfolding equal_details
  equal_details_refl d =
      let diagnostics = same_list_refl same_diagnostic same_diagnostic_refl d.diagnostics in
      let references = same_list_refl (λ r s. r == s) ==_refl d.artifact_references in
      let retryable = same_bool_refl d.retryable in ground arith

  compare_failed_checklist-failed :
      (s : Checklists) (id : String) (row : Checklist) (details : Details)
      → s id ≡ some (failed_row row details)
      → compare_failed_checklist text s id details ≡ ok tt
  unfolding compare_failed_checklist get_checklist String-discrete
  compare_failed_checklist-failed s id row details h =
      let same = equal_details_refl details in rw h (rw same refl)

  compare_failed_checklist-succeeded :
      (s : Checklists) (id : String) (row : Checklist) (ds : List Dimension)
      (cs : List CandidateQuestion) (ws : List Weight) (qs : List FinalQuestion) (details : Details)
      → s id ≡ some (succeeded_row row ds cs ws qs)
      → compare_failed_checklist text s id details ≡ err conflict
  unfolding compare_failed_checklist get_checklist String-discrete
  compare_failed_checklist-succeeded s id row ds cs ws qs details h = rw h refl

  fail_checklist-ended :
      (commit : Checklist → Result (Unit {0})) (s : Checklists) (id : String) (details : Details)
      (row : Checklist)
      → s id ≡ some row
      → (row.status == status_running) ≡ false
      → validate_details details ≡ ok tt
      → fail_checklist text commit s id details ≡ (s, compare_failed_checklist text s id details)
  unfolding fail_checklist
  fail_checklist-ended commit s id details row h ended valid = rw valid (rw h (rw ended refl))

  module _ (commit : Checklist → Result (Unit {0})) (s : Checklists) (id : String) where
    fail_checklist-row :
        (details : Details) (row : Checklist)
        → s id ≡ some row
        → row.status ≡ status_running
        → (fail_checklist text commit s id details).1 ≡ ok tt
        → ((fail_checklist text commit s id details).0 id ≡ some (failed_row row details))
          × (validate_details details ≡ ok tt)
    unfolding fail_checklist
    fail_checklist-row details row h running e =
        let same = ==_refl id in
        let test : (row.status == status_running) ≡ true = rw running (==_refl status_running) in
        (ground arith, ground arith)

    -- A checklist that is failed, and failed again with the same details, is left as it is, and
    -- the second call succeeds as well.
    pub fail_checklist-twice :
        (details : Details) (row : Checklist)
        → s id ≡ some row
        → row.status ≡ status_running
        → (fail_checklist text commit s id details).1 ≡ ok tt
        → let s1 = (fail_checklist text commit s id details).0 in
          fail_checklist text commit s1 id details ≡ (s1, ok tt)
    fail_checklist-twice details row h running e =
        let s1 = (fail_checklist text commit s id details).0 in
        let first = fail_checklist-row details row h running e in
        rw
          (fail_checklist-ended commit s1 id details (failed_row row details) first.0
            failed-not_running first.1)
          (rw (compare_failed_checklist-failed s1 id row details first.0) refl)

    -- A checklist that is completed stays so: to fail it with details that pass their check is a
    -- conflict, and changes nothing.
    pub fail_checklist-succeed_checklist :
        (details : Details) (ds : List Dimension) (cs : List CandidateQuestion) (ws : List Weight)
        (qs : List FinalQuestion) (limits : ChecklistLimits) (row : Checklist)
        → s id ≡ some row
        → row.status ≡ status_running
        → (succeed_checklist commit s id ds cs ws qs limits).1 ≡ ok tt
        → validate_details details ≡ ok tt
        → let s1 = (succeed_checklist commit s id ds cs ws qs limits).0 in
          fail_checklist text commit s1 id details ≡ (s1, err conflict)
    fail_checklist-succeed_checklist details ds cs ws qs limits row h running e valid =
        let s1 = (succeed_checklist commit s id ds cs ws qs limits).0 in
        let first = succeed_checklist-row commit s id ds cs ws qs limits row h running e in
        rw (fail_checklist-ended commit s1 id details _ first.0 succeeded-not_running valid)
          (rw (compare_failed_checklist-succeeded s1 id row ds cs ws qs details first.0) refl)

    -- A checklist that is failed stays so: to complete it with rows that pass their checks is a
    -- conflict, and changes nothing.
    pub succeed_checklist-fail_checklist :
        (details : Details) (ds : List Dimension) (cs : List CandidateQuestion) (ws : List Weight)
        (qs : List FinalQuestion) (limits : ChecklistLimits) (row : Checklist)
        → s id ≡ some row
        → row.status ≡ status_running
        → (fail_checklist text commit s id details).1 ≡ ok tt
        → check_submission ds cs ws qs limits ≡ ok tt
        → let s1 = (fail_checklist text commit s id details).0 in
          succeed_checklist commit s1 id ds cs ws qs limits ≡ (s1, err conflict)
    succeed_checklist-fail_checklist details ds cs ws qs limits row h running e valid =
        let s1 = (fail_checklist text commit s id details).0 in
        let first = fail_checklist-row details row h running e in
        rw
          (succeed_checklist-ended commit s1 id ds cs ws qs limits _ first.0 failed-not_running
            valid)
          (rw (compare_succeeded_checklist-failed s1 id row details ds cs ws qs first.0) refl)
