-- ===== src/Effect/Emits.antt =====
-- Which events a command may add to the trace, on every outcome.
use fifo.Prelude.{List, ◌≡◌, refl, Bool, true, false, ◌∷◌, if◌then◌else◌}
use fifo.Effect.{Run, done, exited, fault, out_of_fuel, Cmd, and_then, ◌>>=◌, pure}

-- `u` is `t` with newer events, each of which satisfies `P`.
pub data Extends {E : Type 0} (P : E → Type 0) (t : List E) : List E → Type 0 where
  same : Extends P t t
  newer : {u : List E} {e : E} → P e → Extends P t u → Extends P t (e ∷ u)

module _ {E : Type 0} {P : E → Type 0} where
  pub Extends-trans : {t u v : List E} → Extends P t u → Extends P u v → Extends P t v
  Extends-trans h same = h
  Extends-trans h (newer p k) = newer p (Extends-trans h k)

-- the trace of a run
abbrev pub trace_of : {E A : Type 0} → Run E A → List E
trace_of (done a t) = t
trace_of (exited t) = t
trace_of (fault t) = t
trace_of (out_of_fuel t) = t

-- Every event of the command satisfies `P`.
pub record Emits {E : Type 0} (P : E → Type 0) {A : Type 0} (m : Cmd E A) : Type 0 where
  pub emits : (t : List E) → Extends P t (trace_of (m t))

module _ {E : Type 0} {P : E → Type 0} {A : Type 0} where
  pub Emits-pure : (a : A) → Emits P (pure a)
  Emits-pure a = record { emits = λ t. same }

  pub Emits-if : (b : Bool) {m n : Cmd E A} → Emits P m → Emits P n → Emits P (if b then m else n)
  Emits-if true hm hn = hm
  Emits-if false hm hn = hn

  -- The test may be needed in the branches.
  pub Emits-if_of :
      (b : Bool) {m n : Cmd E A}
      → (b ≡ true → Emits P m)
      → (b ≡ false → Emits P n)
      → Emits P (if b then m else n)
  Emits-if_of true hm hn = hm refl
  Emits-if_of false hm hn = hn refl

and_then-Extends :
    {E : Type 0} {P : E → Type 0} {A B : Type 0} {t : List E} (r : Run E A) (k : A → Cmd E B)
    → Extends P t (trace_of r)
    → ((a : A) → Emits P (k a))
    → Extends P t (trace_of (and_then r k))
and_then-Extends (done a u) k h hk = Extends-trans h ((hk a).emits u)
and_then-Extends (exited u) k h hk = h
and_then-Extends (fault u) k h hk = h
and_then-Extends (out_of_fuel u) k h hk = h

pub Emits-bind :
    {E : Type 0} {P : E → Type 0} {A B : Type 0} {m : Cmd E A} {k : A → Cmd E B}
    → Emits P m
    → ((a : A) → Emits P (k a))
    → Emits P (m >>= k)
Emits-bind {m} {k} hm hk = record { emits = λ t. and_then-Extends (m t) k (hm.emits t) hk }
