-- ===== src/Effect/Yields.antt =====
-- What the result of a command satisfies, where it has one.
use fifo.Prelude.{List, Bool, true, false, if◌then◌else◌}
use fifo.Effect.{Run, done, exited, fault, out_of_fuel, Cmd, and_then, ◌>>=◌, pure}
use fifo.Effect.Emits.{Extends, Extends-trans, trace_of, Emits}

abbrev pub YieldsRun : {E A : Type 0} → (A → Type 0) → Run E A → Type 0
YieldsRun Q (done a t) = Q a
YieldsRun Q _ = Unit {0}

pub record Yields {E A : Type 0} (Q : A → Type 0) (m : Cmd E A) : Type 0 where
  pub yields : (t : List E) → YieldsRun Q (m t)

module _ {E A : Type 0} {Q : A → Type 0} where
  pub Yields-pure : (a : A) → Q a → Yields {E = E} Q (pure a)
  Yields-pure a q = record { yields = λ t. q }

  pub Yields-if :
      (b : Bool) {m n : Cmd E A} → Yields Q m → Yields Q n → Yields Q (if b then m else n)
  Yields-if true hm hn = hm
  Yields-if false hm hn = hn

and_then-YieldsRun :
    {E A B : Type 0} {Q : A → Type 0} {R : B → Type 0} (r : Run E A) (k : A → Cmd E B)
    → YieldsRun Q r
    → ((a : A) → Q a → Yields R (k a))
    → YieldsRun R (and_then r k)
and_then-YieldsRun (done a u) k h hk = (hk a h).yields u
and_then-YieldsRun (exited u) k h hk = tt
and_then-YieldsRun (fault u) k h hk = tt
and_then-YieldsRun (out_of_fuel u) k h hk = tt

YieldsRun-any : {E A : Type 0} (r : Run E A) → YieldsRun (λ _. Unit {0}) r
YieldsRun-any (done a u) = tt
YieldsRun-any (exited u) = tt
YieldsRun-any (fault u) = tt
YieldsRun-any (out_of_fuel u) = tt

pub Yields-bind :
    {E A B : Type 0} {Q : A → Type 0} {R : B → Type 0} {m : Cmd E A} {k : A → Cmd E B}
    → Yields Q m
    → ((a : A) → Q a → Yields R (k a))
    → Yields R (m >>= k)
Yields-bind {m} {k} hm hk = record { yields = λ t. and_then-YieldsRun (m t) k (hm.yields t) hk }

-- Where nothing need be known of the first command.
pub Yields-after :
    {E A B : Type 0} {R : B → Type 0} (m : Cmd E A) {k : A → Cmd E B}
    → ((a : A) → Yields R (k a))
    → Yields R (m >>= k)
Yields-after m {k} hk = record {
  yields = λ t. and_then-YieldsRun (m t) k (YieldsRun-any (m t)) (λ a _. hk a);
}

and_then-Extends_of :
    {E A B : Type 0} {P : E → Type 0} {Q : A → Type 0} {t : List E} (r : Run E A) (k : A → Cmd E B)
    → Extends P t (trace_of r)
    → YieldsRun Q r
    → ((a : A) → Q a → Emits P (k a))
    → Extends P t (trace_of (and_then r k))
and_then-Extends_of (done a u) k h q hk = Extends-trans h ((hk a q).emits u)
and_then-Extends_of (exited u) k h q hk = h
and_then-Extends_of (fault u) k h q hk = h
and_then-Extends_of (out_of_fuel u) k h q hk = h

-- Where the events of the second command depend on the result of the first.
pub Emits-bind_of :
    {E A B : Type 0} {P : E → Type 0} {Q : A → Type 0} {m : Cmd E A} {k : A → Cmd E B}
    → Emits P m
    → Yields Q m
    → ((a : A) → Q a → Emits P (k a))
    → Emits P (m >>= k)
Emits-bind_of {m} {k} hm ym hk = record {
  emits = λ t. and_then-Extends_of (m t) k (hm.emits t) (ym.yields t) hk;
}
