-- ===== src/Api/Laws.antt =====
-- Each request is some calls on the store.
use self_imp_bin_eval.Base.{String}
