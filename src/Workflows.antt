-- ===== src/Workflows.antt =====
-- internal/workflows: a workflow as the activities that it starts, in order, and what becomes of it.
pub mod Options
pub mod Create
pub mod Evaluate
use self_imp_bin_eval.Base.{
  sym, ap, ◌∙◌, append_assoc, ◌≡◌, refl, sym, String, List, [], ◌∷◌, ◌++◌, map, All, All-append,
}
use self_imp_bin_eval.Errors.{GoError, Result, ok, err}

-- The workflow goes on with a value, or it returns by its failure function, which it gives a stage
-- and a cause.
pub data Outcome (A : Type 0) : Type 0 where
  done : A → Outcome A
  failed : (stage : String) (cause : GoError) → Outcome A

abbrev pub Flow : (Call A : Type 0) → Type 0
Flow Call A = List Call × Outcome A

module _ {Call S T : Type 0} where
  infixl 5 ◌>>=◌
  abbrev pub ◌>>=◌ : Flow Call S → (S → Flow Call T) → Flow Call T
  (calls, failed stage cause) >>= next = (calls, failed stage cause)
  (calls, done value) >>= next = let rest = next value in (calls ++ rest.0, rest.1)

module _ {Call T : Type 0} where
  infixl 5 ◌>>◌
  abbrev pub ◌>>◌ : Flow Call (Unit {0}) → Flow Call T → Flow Call T
  first >> rest = first >>= (λ finished. rest)

module _ {Call A : Type 0} where
  -- A step whose error ends the workflow at the stage.
  abbrev pub check : String → Result A → Flow Call A
  check stage (ok a) = ([], done a)
  check stage (err e) = ([], failed stage e)

  -- An activity that is started and waited for.
  abbrev pub execute : String → Call → Result A → Flow Call A
  execute stage call (ok a) = (call ∷ [], done a)
  execute stage call (err e) = (call ∷ [], failed stage e)

module _ {Call A T : Type 0} where
  -- A flow that is done goes on after each of its steps, with the value that the step gave.
  pub check-eq-done :
      (stage : String) (r : Result A) (next : A → Flow Call T) {t : T}
      → (check stage r >>= next).1 ≡ done t
      → (a : A) × (r ≡ ok a) × ((next a).1 ≡ done t) × ((check stage r >>= next).0 ≡ (next a).0)
  check-eq-done stage (ok a) next e = (a, refl, e, refl)
  check-eq-done stage (err b) next e = absurd (cc e)

  pub execute-eq-done :
      (stage : String) (call : Call) (r : Result A) (next : A → Flow Call T) {t : T}
      → (execute stage call r >>= next).1 ≡ done t
      → (a : A) × (r ≡ ok a)
        × ((next a).1 ≡ done t)
        × ((execute stage call r >>= next).0 ≡ call ∷ (next a).0)
  execute-eq-done stage call (ok a) next e = (a, refl, e, refl)
  execute-eq-done stage call (err b) next e = absurd (cc e)

-- Activities that are started, to be waited for later.
abbrev pub start : {Call : Type 0} → List Call → Flow Call (Unit {0})
start calls = (calls, done tt)

module _ {Call : Type 0} where
  -- The last call.
  abbrev pub EndsIn : Call → List Call → Type 0
  EndsIn call calls = (before : List Call) × (calls ≡ before ++ call ∷ [])

  pub EndsIn-append :
      (call : Call) (first second calls : List Call)
      → calls ≡ first ++ second
      → EndsIn call second
      → EndsIn call calls
  EndsIn-append call first second calls e (before, f) =
      (first ++ before, e ∙ ap (λ cs. first ++ cs) f ∙ sym (append_assoc first before (call ∷ [])))

  pub EndsIn-execute :
      (stage : String) (call : Call) {A : Type 0} (r : Result A)
      → EndsIn call (execute stage call r).0
  EndsIn-execute stage call (ok a) = ([], refl)
  EndsIn-execute stage call (err e) = ([], refl)

  pub execute-ok :
      (stage : String) (call : Call) (r : Result (Unit {0}))
      → (execute stage call r).1 ≡ done tt
      → r ≡ ok tt
  execute-ok stage call (ok a) e = refl
  execute-ok stage call (err b) e = absurd (cc e)

module _ {Call : Type 0} (P : Call → Type 0) (Q : String → Type 0) where
  -- A flow that fails does so at a stage of which `Q` holds.
  abbrev pub StagesHave : {A : Type 0} → Outcome A → Type 0
  StagesHave (done a) = Unit
  StagesHave (failed stage cause) = Q stage

  -- `P` holds of every call, and `Q` of the stage of a failure.
  pub record Has {A : Type 0} (flow : Flow Call A) : Type 0 where
    pub calls : All P flow.0
    pub stages : StagesHave flow.1

  pub check-Has :
      {A T : Type 0} (stage : String) (r : Result A) (next : A → Flow Call T)
      → Q stage
      → ((a : A) → Has (next a))
      → Has (check stage r >>= next)
  check-Has stage (ok a) next q h = record { calls = (h a).calls; stages = (h a).stages }
  check-Has stage (err e) next q h = record { calls = tt; stages = q }

  pub execute-Has :
      {A T : Type 0} (stage : String) (call : Call) (r : Result A) (next : A → Flow Call T)
      → P call
      → Q stage
      → ((a : A) → Has (next a))
      → Has (execute stage call r >>= next)
  execute-Has stage call (ok a) next p q h = record {
    calls = (p, (h a).calls);
    stages = (h a).stages;
  }
  execute-Has stage call (err e) next p q h = record { calls = (p, tt); stages = q }

  pub execute_last-Has :
      {A : Type 0} (stage : String) (call : Call) (r : Result A)
      → P call
      → Q stage
      → Has (execute stage call r)
  execute_last-Has stage call (ok a) p q = record { calls = (p, tt); stages = tt }
  execute_last-Has stage call (err e) p q = record { calls = (p, tt); stages = q }

  All-of_map : {X : Type 0} (f : X → Call) (xs : List X) → ((x : X) → P (f x)) → All P (map f xs)
  All-of_map f [] h = tt
  All-of_map f (x ∷ xs) h = (h x, All-of_map f xs h)

  pub start-Has :
      {X T : Type 0} (f : X → Call) (xs : List X) (rest : Flow Call T)
      → ((x : X) → P (f x))
      → Has rest
      → Has (start (map f xs) >> rest)
  start-Has f xs rest h k = record {
    calls = All-append P (map f xs) rest.0 (All-of_map f xs h) k.calls;
    stages = k.stages;
  }
