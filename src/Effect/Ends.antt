-- ===== src/Effect/Ends.antt =====
-- Runs that end in a result, and what is known of it.
use fifo.Prelude.{List, Bool, true, false, ◌≡◌, if◌then◌else◌}
use fifo.Effect.{Run, Cmd, and_then}
use fifo.Effect.Outcomes.{Stops, Outcome, returns, and_then-Outcome, Outcome-weaken, Outcome-if}

-- The run ends in a result that satisfies `Q`, with its trace: no `exit`, no fault, and enough fuel.
abbrev pub Ends : {E A : Type 0} → (A → List E → Type 0) → Run E A → Type 0
Ends Q = Outcome returns Q

pub and_then-Ends :
    {E A B : Type 0} (Q : A → List E → Type 0) (R : B → List E → Type 0) (r : Run E A)
    (k : A → Cmd E B)
    → Ends Q r
    → ((a : A) (t : List E) → Q a t → Ends R (k a t))
    → Ends R (and_then r k)
and_then-Ends Q R r k h next = and_then-Outcome returns Q R r k h next

pub Ends-weaken :
    {E A : Type 0} (Q R : A → List E → Type 0) (r : Run E A)
    → Ends Q r
    → ((a : A) (t : List E) → Q a t → R a t)
    → Ends R r
Ends-weaken Q R r h next =
    Outcome-weaken returns returns Q R r h (λ t h. h) (λ t h. h) (λ t h. h) next

-- A branch, with its test.
pub Ends-if :
    {E A : Type 0} (Q : A → List E → Type 0) (b : Bool) (m n : Cmd E A) (t : List E)
    → (b ≡ true → Ends Q (m t))
    → (b ≡ false → Ends Q (n t))
    → Ends Q ((if b then m else n) t)
Ends-if Q b m n t hm hn = Outcome-if returns Q b m n t hm hn

-- A run that ends in a result stops in no other way.
pub Ends-Outcome :
    {E A : Type 0} (S : Stops E) (Q : A → List E → Type 0) (r : Run E A) → Ends Q r → Outcome S Q r
Ends-Outcome S Q r h =
    Outcome-weaken returns S Q Q r h (λ t never. absurd never) (λ t never. absurd never)
      (λ t never. absurd never) (λ a t q. q)
