-- ===== src/Evalcore/Aggregate/Counting.antt =====
-- The loops of AggregateJudgments over the questions: the votes and the majority.
use self_imp_bin_eval.Base.{
  ℕ, zero, suc, ◌+◌, ◌*◌, ◌/◌, ◌<◌, ◌≤◌, ◌≡◌, ◌⊎◌, refl, String, true, false, List, [],
  if◌then◌else◌, ◌==◌, ltb, All, map, arith, inl, inr, ==_refl, ==_of_ne,
}
use self_imp_bin_eval.Base.Int.{pos}
use self_imp_bin_eval.Base.Keys.{contains, find, find-All, find_is_some, found_or, get_or-index}
use self_imp_bin_eval.Evalcore.Types.{
  FinalQuestion, Judgment, RunJudgment, AggregatedJudgment, AggregationResult, answer_yes,
  answer_no,
}
use self_imp_bin_eval.Evalcore.Judgments.{judgment_ids}
use self_imp_bin_eval.Evalcore.Judgments.Laws.{AreJudgments, IsShaped}
use self_imp_bin_eval.Evalcore.Score.{judgment_by_id, no_judgment, judgment_of}
use self_imp_bin_eval.Evalcore.Score.Laws.{score_of}
use self_imp_bin_eval.Evalcore.Aggregate.{
  ByRunAndQuestion, Votes, add_vote, collect_votes, aggregate_question, derived_judgment,
}
use self_imp_bin_eval.Evalcore.Aggregate.Runs.{run_of, IsInRange}

-- A run's judgment of a question.
abbrev pub judgment_for : List Judgment → String → Judgment
judgment_for js id =
    found_or (λ (j : Judgment). j.question_id) no_judgment (find (λ j. j.question_id) id js)

yes_is_not_no : (answer_yes == answer_no) ≡ false
yes_is_not_no = ==_of_ne _ _ (λ h. cc)

pub no_is_not_yes : (answer_no == answer_yes) ≡ false
no_is_not_yes = ==_of_ne _ _ (λ h. cc)

pub judgment_for-answer :
    (js : List Judgment) (id : String)
    → All IsShaped js
    → contains (judgment_ids js) id ≡ true
    → ((judgment_for js id).answer ≡ answer_yes) ⊎ ((judgment_for js id).answer ≡ answer_no)
judgment_for-answer js id h k =
    let (j, found, _) = find_is_some (λ (j : Judgment). j.question_id) id js k in
    rw found (find-All (λ (j : Judgment). j.question_id) IsShaped id js j h found).answer

module _ (js : List RunJudgment) (id : String) where
  abbrev pub vote_in : ℕ → Judgment
  vote_in i = judgment_for (run_of (pos i) js) id

  -- How many of the runs answer yes, and how many no.
  abbrev pub yes_votes : (run_index remaining : ℕ) → ℕ
  yes_votes r zero = 0
  yes_votes r (suc n) =
      if (vote_in r).answer == answer_yes then suc (yes_votes (suc r) n) else yes_votes (suc r) n

  abbrev pub no_votes : (run_index remaining : ℕ) → ℕ
  no_votes r zero = 0
  no_votes r (suc n) =
      if (vote_in r).answer == answer_no then suc (no_votes (suc r) n) else no_votes (suc r) n

  abbrev pub votes_of : (run_index remaining : ℕ) → Votes
  votes_of r zero = record { runs = []; yes_count = 0 }
  votes_of r (suc n) = add_vote r (vote_in r) (votes_of (suc r) n)

  votes_of-yes_count : (r n : ℕ) → (votes_of r n).yes_count ≡ yes_votes r n
  votes_of-yes_count r zero = refl
  votes_of-yes_count r (suc n) = ground (arith, votes_of-yes_count (suc r) n)

  -- Every vote is a yes or a no.
  pub yes_votes-no_votes :
      (r n : ℕ)
      → ((i : ℕ)
          → r ≤ i
          → i < r + n
          → ((vote_in i).answer ≡ answer_yes) ⊎ ((vote_in i).answer ≡ answer_no))
      → yes_votes r n + no_votes r n ≡ n
  yes_votes-no_votes r zero h = refl
  yes_votes-no_votes r (suc n) h =
      let ih = yes_votes-no_votes (suc r) n (λ i a b. h i (omega arith) (omega arith)) in
      elim (h r (omega arith) (omega arith)) [
        | inl met ↦ rw (met, ==_refl answer_yes, yes_is_not_no) (omega (arith, ih))
        | inr unmet ↦ rw (unmet, ==_refl answer_no, no_is_not_yes) (omega (arith, ih))
      ]

  collect_votes-eq :
      (m : ByRunAndQuestion) (r n : ℕ)
      → ((i : ℕ) → r ≤ i → i < r + n → judgment_of (m i) id ≡ vote_in i)
      → collect_votes m id r n ≡ votes_of r n
  unfolding collect_votes
  collect_votes-eq m r zero h = refl
  collect_votes-eq m r (suc n) h =
      rw
        (
          h r (omega arith) (omega arith),
          collect_votes-eq m (suc r) n (λ i a b. h i (omega arith) (omega arith)),
        )
        refl

-- Yes where it has more votes than no.
abbrev pub majority : (yes_votes no_votes : ℕ) → String
majority y n = if ltb n y then answer_yes else answer_no

majority-eq :
    (k y n : ℕ)
    → y + n ≡ 2 * k + 1
    → (if ltb ((2 * k + 1) / 2) y then answer_yes else answer_no) ≡ majority y n
majority-eq k y n h = ground arith

module _ (js : List RunJudgment) (n : ℕ) where
  abbrev pub aggregated_of : FinalQuestion → AggregatedJudgment
  aggregated_of q = record {
    question_id = q.id;
    runs = (votes_of js q.id 1 n).runs;
    answer = majority (yes_votes js q.id 1 n) (no_votes js q.id 1 n);
  }

  abbrev pub derived_of : List FinalQuestion → List Judgment
  derived_of qs = map derived_judgment (map aggregated_of qs)

  abbrev pub aggregation_of : List FinalQuestion → AggregationResult
  aggregation_of qs = record {
    judgments = map aggregated_of qs;
    score = score_of qs (derived_of qs);
  }

-- The judgments belong to the runs, and those of each run are valid.
pub record AreRunJudgments (qs : List FinalQuestion) (js : List RunJudgment) (n : ℕ) : Type 0 where
  pub in_range : All (IsInRange (pos n)) js
  pub each : (i : ℕ) → 1 ≤ i → i < 1 + n → AreJudgments qs (run_of (pos i) js)

module _ (qs : List FinalQuestion) (js : List RunJudgment) (k : ℕ)
    (h : AreRunJudgments qs js (2 * k + 1)) where
  abbrev n : ℕ
  n = 2 * k + 1

  pub votes-are_answers :
      (q : FinalQuestion)
      → ((i : ℕ) → 1 ≤ i → i < 1 + n → contains (judgment_ids (run_of (pos i) js)) q.id ≡ true)
      → yes_votes js q.id 1 n + no_votes js q.id 1 n ≡ n
  votes-are_answers q c =
      yes_votes-no_votes js q.id 1 n
        (λ i a b. judgment_for-answer (run_of (pos i) js) q.id (h.each i a b).shaped.each (c i a b))

  pub aggregate_question-eq :
      (m : ByRunAndQuestion) (q : FinalQuestion)
      → ((i : ℕ) → 1 ≤ i → i < 1 + n → m i ≡ judgment_by_id (run_of (pos i) js))
      → ((i : ℕ) → 1 ≤ i → i < 1 + n → contains (judgment_ids (run_of (pos i) js)) q.id ≡ true)
      → aggregate_question m n q ≡ aggregated_of js n q
  unfolding aggregate_question
  aggregate_question-eq m q e c =
      let votes = collect_votes-eq js q.id m 1 n (λ i a b. rw (e i a b) (
        get_or-index (λ (j : Judgment). j.question_id) no_judgment q.id (run_of (pos i) js)
          (h.each i a b).shaped.distinct)) in
      rw
        (
          votes,
          votes_of-yes_count js q.id 1 n,
          majority-eq k (yes_votes js q.id 1 n) (no_votes js q.id 1 n) (votes-are_answers q c),
        )
        refl
