-- ===== src/Tests/Validators.antt =====
-- Validators on the data.
use self_imp_bin_eval.Base.{◌≡◌, refl, String-discrete}
use self_imp_bin_eval.Base.Keys.{contains}
use self_imp_bin_eval.Base.Text.{is_blank}
use self_imp_bin_eval.Errors.{ok}
use self_imp_bin_eval.Evalcore.Types.{with_defaults}
use self_imp_bin_eval.Evalcore.Dimensions.{validate_dimension_generation, check_dimension_drafts}
use self_imp_bin_eval.Evalcore.Weights.{validate_weight_shape, check_weight_shape}
use self_imp_bin_eval.Tests.Data.{no_limits, draft_dimensions, weights}

drafted : validate_dimension_generation draft_dimensions no_limits ≡ ok tt
unfolding validate_dimension_generation check_dimension_drafts with_defaults is_blank
drafted = refl

shaped : validate_weight_shape weights ≡ ok tt
unfolding validate_weight_shape check_weight_shape contains is_blank String-discrete
shaped = refl
