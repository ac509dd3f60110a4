-- ===== src/Store/Lifecycle/Rows.antt =====
-- Rows of either table by their identifiers: what a write leaves of the others.
use self_imp_bin_eval.Base.{
  ◌≡◌, sym, ap, ◌∙◌, subst, String, true, false, ◌==◌, eq_of_==, ==_refl, Option, none, some,
  if◌then◌else◌, Bool-cases, inl, inr,
}
use self_imp_bin_eval.Store.{status_running}

module _ {A : Type 0} where
  abbrev pub put_row : (String → Option A) → String → A → String → Option A
  put_row s id row j = if j == id then some row else s j

  -- A row that is found after a write is the one that was written, or was there before.
  pub put_row-cases :
      (P : A → Type 0) (s : String → Option A) (id j : String) (new row : A)
      → put_row s id new j ≡ some row
      → P new
      → (s j ≡ some row → P row)
      → P row
  put_row-cases P s id j new row e here there = elim (Bool-cases (j == id)) [
    | inl t ↦ let same : new ≡ row = cc (rw t at e) in subst P same here
    | inr t ↦ there (rw t at e)
  ]

  module _ (status : A → String) where
    -- Rows that have ended are kept.
    abbrev pub Extends : (String → Option A) → (String → Option A) → Type 0
    Extends s t =
        (id : String) (row : A)
        → s id ≡ some row
        → (status row == status_running) ≡ false
        → t id ≡ some row

    pub put_new-Extends :
        (s : String → Option A) (id : String) (new : A) → s id ≡ none → Extends s (put_row s id new)
    put_new-Extends s id new free j row e h = elim (Bool-cases (j == id)) [
      | inl t ↦ let same = ap s (eq_of_== j id t) in absurd (cc)
      | inr t ↦ rw t e
    ]

    running-contradiction :
        (row old : A)
        → some row ≡ some old
        → status old ≡ status_running
        → (status row == status_running) ≡ false
        → ⊥
    running-contradiction row old e r h =
        let same : row ≡ old = cc in
        let test : (status row == status_running) ≡ true =
          rw (ap status same ∙ r) (==_refl status_running) in
        cc

    pub put_running-Extends :
        (s : String → Option A) (id : String) (old new : A)
        → s id ≡ some old
        → status old ≡ status_running
        → Extends s (put_row s id new)
    put_running-Extends s id old new was running j row e h = elim (Bool-cases (j == id)) [
      | inl t ↦
          let same = ap s (eq_of_== j id t) in
          absurd (running-contradiction row old (sym e ∙ same ∙ was) running h)
      | inr t ↦ rw t e
    ]
