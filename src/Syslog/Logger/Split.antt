-- ===== src/Syslog/Logger/Split.antt =====
-- Strings cut at a byte, as src/syslog-win32/syslog-client.c does with `strchr`.
use fifo.Prelude.{
  ℕ, ◌≤◌, ◌≡◌, refl, Bool-cases, inl, inr, false, ◌==◌, none, some, List, [], ◌∷◌, ◌++◌, length,
  arith,
}
use fifo.Syslog.Logger.{split_at}

-- the bytes in front of the first `c`
pub split_at-length : (c : ℕ) (s : List ℕ) → length (split_at c s).0 ≤ length s
unfolding split_at
split_at-length c [] = omega arith
split_at-length c (b ∷ bs) = ground (arith, split_at-length c bs)

abbrev pub Lacks : ℕ → List ℕ → Type 0
Lacks c [] = Unit {0}
Lacks c (b ∷ bs) = ((b == c) ≡ false) × Lacks c bs

pub split_at-Lacks : (c : ℕ) (s : List ℕ) → Lacks c (split_at c s).0
unfolding split_at
split_at-Lacks c [] = tt
split_at-Lacks c (b ∷ bs) = elim (Bool-cases (b == c)) [
  | inl same ↦ rw same tt
  | inr other ↦ rw other (other, split_at-Lacks c bs)
]

pub split_at-keeps : (c d : ℕ) (s : List ℕ) → Lacks d s → Lacks d (split_at c s).0
unfolding split_at
split_at-keeps c d [] h = tt
split_at-keeps c d (b ∷ bs) (h, hs) = elim (Bool-cases (b == c)) [
  | inl same ↦ rw same tt
  | inr other ↦ rw other (h, split_at-keeps c d bs hs)
]

pub split_at-found : (c : ℕ) (s r : List ℕ) → Lacks c s → split_at c (s ++ c ∷ r) ≡ (s, some r)
unfolding split_at
split_at-found c [] r h = ground arith
split_at-found c (b ∷ bs) r (h, hs) = rw (h, split_at-found c bs r hs) refl

pub split_at-absent : (c : ℕ) (s : List ℕ) → Lacks c s → split_at c s ≡ (s, none)
unfolding split_at
split_at-absent c [] h = refl
split_at-absent c (b ∷ bs) (h, hs) = rw (h, split_at-absent c bs hs) refl

pub Lacks-append : (c : ℕ) (s r : List ℕ) → Lacks c s → Lacks c r → Lacks c (s ++ r)
Lacks-append c [] r h k = k
Lacks-append c (b ∷ bs) r (h, hs) k = (h, Lacks-append c bs r hs k)
