-- ===== src/Evalcore/Types/Limits.antt =====
-- The limits after defaulting, and the numbers of runs that are accepted.
use self_imp_bin_eval.Base.{ℕ, ◌+◌, ◌*◌, ◌/◌, ◌≡◌, ◌↔◌, arith}
use self_imp_bin_eval.Base.Int.{ℤ, pos, negsuc, ◌≤ℤ◌, ◌<ℤ◌}
use self_imp_bin_eval.Errors.{ok}
use self_imp_bin_eval.Evalcore.Types.{ChecklistLimits, with_defaults, validate_evaluation_runs}

-- Every limit is positive.
pub record IsPositive (l : ChecklistLimits) : Type 0 where
  pub dimensions : pos 0 <ℤ l.max_dimensions
  pub candidates : pos 0 <ℤ l.max_candidates_per_dimension
  pub splits : pos 0 <ℤ l.max_split_count
  pub questions : pos 0 <ℤ l.max_final_questions

pub with_defaults-IsPositive : (l : ChecklistLimits) → IsPositive (with_defaults l)
unfolding with_defaults
with_defaults-IsPositive l = ground arith

-- Positive limits are kept.
pub with_defaults_of_IsPositive : (l : ChecklistLimits) → IsPositive l → with_defaults l ≡ l
unfolding with_defaults
with_defaults_of_IsPositive l h = ground arith

-- Limits, once filled in, are positive, and filling them in again changes nothing.
pub with_defaults_idem :
    (l : ChecklistLimits)
    → IsPositive (with_defaults l) × (with_defaults (with_defaults l) ≡ with_defaults l)
with_defaults_idem l =
    let h = with_defaults-IsPositive l in (h, with_defaults_of_IsPositive (with_defaults l) h)

-- Exactly the odd positive numbers of runs up to the maximum are accepted.
pub validate_evaluation_runs_iff :
    (runs max_runs : ℤ)
    → pos 0 <ℤ max_runs
    → (validate_evaluation_runs runs max_runs ≡ ok tt)
      ↔ ((k : ℕ) × (runs ≡ pos (2 * k + 1)) × (runs ≤ℤ max_runs))
unfolding validate_evaluation_runs
validate_evaluation_runs_iff (pos n) m h =
    (λ e. (n / 2, ground arith, ground arith), λ (k, e, b). ground arith)
validate_evaluation_runs_iff (negsuc n) m h =
    (λ e. absurd (ground arith), λ (k, e, b). ground arith)
