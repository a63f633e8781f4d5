-- ===== src/Effect/Outcomes.antt =====
-- What holds where a run stops: one predicate for each way to stop.
use fifo.Prelude.{List, Bool, true, false, ◌≡◌, refl, if◌then◌else◌}
use fifo.Effect.{Run, done, exited, fault, out_of_fuel, Cmd, and_then}

-- the predicates for `exit`, for an access outside its object, and for fuel that is used up
pub record Stops (E : Type 0) : Type (1) where
  pub on_exit : List E → Type 0
  pub on_fault : List E → Type 0
  pub on_fuel : List E → Type 0

module _ {E : Type 0} where
  -- The run returns a result with `Q`, or stops as `S` says.
  abbrev pub Outcome : {A : Type 0} → Stops E → (A → List E → Type 0) → Run E A → Type 0
  Outcome S Q (done a t) = Q a t
  Outcome S Q (exited t) = S.on_exit t
  Outcome S Q (fault t) = S.on_fault t
  Outcome S Q (out_of_fuel t) = S.on_fuel t

  -- Every way to stop but a return is ruled out.
  abbrev pub returns : Stops E
  returns = record { on_exit = λ t. ⊥; on_fault = λ t. ⊥; on_fuel = λ t. ⊥ }

  module _ (S : Stops E) {A B : Type 0} (Q : A → List E → Type 0) (R : B → List E → Type 0) where
    -- A run and what follows its result.
    pub and_then-Outcome :
        (r : Run E A) (k : A → Cmd E B)
        → Outcome S Q r
        → ((a : A) (t : List E) → Q a t → Outcome S R (k a t))
        → Outcome S R (and_then r k)
    and_then-Outcome (done a t) k h next = next a t h
    and_then-Outcome (exited t) k h next = h
    and_then-Outcome (fault t) k h next = h
    and_then-Outcome (out_of_fuel t) k h next = h

  -- More is known of each way to stop.
  pub Outcome-weaken :
      {A : Type 0} (S U : Stops E) (Q R : A → List E → Type 0) (r : Run E A)
      → Outcome S Q r
      → ((t : List E) → S.on_exit t → U.on_exit t)
      → ((t : List E) → S.on_fault t → U.on_fault t)
      → ((t : List E) → S.on_fuel t → U.on_fuel t)
      → ((a : A) (t : List E) → Q a t → R a t)
      → Outcome U R r
  Outcome-weaken S U Q R (done a t) h exits faults fuels next = next a t h
  Outcome-weaken S U Q R (exited t) h exits faults fuels next = exits t h
  Outcome-weaken S U Q R (fault t) h exits faults fuels next = faults t h
  Outcome-weaken S U Q R (out_of_fuel t) h exits faults fuels next = fuels t h

  -- A branch, with its test.
  pub Outcome-if :
      {A : Type 0} (S : Stops E) (Q : A → List E → Type 0) (b : Bool) (m n : Cmd E A) (t : List E)
      → (b ≡ true → Outcome S Q (m t))
      → (b ≡ false → Outcome S Q (n t))
      → Outcome S Q ((if b then m else n) t)
  Outcome-if S Q true m n t hm hn = hm refl
  Outcome-if S Q false m n t hm hn = hn refl
