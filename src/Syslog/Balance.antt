-- ===== src/Syslog/Balance.antt =====
-- What the syslog client has taken from the system and not given back.
use fifo.Prelude.{ℕ, suc, ◌+◌, ◌≡◌, true, false, List, [], ◌∷◌, if◌then◌else◌, arith}
use fifo.Prelude.Int.{ℤ, pos, eqb_ℤ}
use fifo.Os.{FilePath}
use fifo.Syslog.System.{
  Trace, wsa_started, wsa_cleaned, socket_made, socket_closed, bound, slept, read_config, resolved,
  registered, invalid_socket,
}

-- 1 for this socket, 0 for any other
unfoldable pub is_socket : ℤ → ℤ → ℕ
is_socket x s = if eqb_ℤ x s then 1 else 0

-- how often the socket `x` is in a list
abbrev pub times : ℤ → List ℤ → ℕ
times x [] = 0
times x (s ∷ ss) = is_socket x s + times x ss

-- how often the socket `x` was made and closed
unfoldable pub sockets_made : ℤ → Trace → ℕ
sockets_made x [] = 0
sockets_made x (socket_made s ∷ t) =
    (if eqb_ℤ s invalid_socket then 0 else is_socket x s) + sockets_made x t
sockets_made x (_ ∷ t) = sockets_made x t

unfoldable pub sockets_closed : ℤ → Trace → ℕ
sockets_closed x [] = 0
sockets_closed x (socket_closed s ∷ t) = is_socket x s + sockets_closed x t
sockets_closed x (_ ∷ t) = sockets_closed x t

-- starts of Winsock and their ends
unfoldable pub wsa_starts : Trace → ℕ
wsa_starts [] = 0
wsa_starts (wsa_started r ∷ t) = (if eqb_ℤ r (pos 0) then 1 else 0) + wsa_starts t
wsa_starts (_ ∷ t) = wsa_starts t

unfoldable pub wsa_ends : Trace → ℕ
wsa_ends [] = 0
wsa_ends (wsa_cleaned ∷ t) = 1 + wsa_ends t
wsa_ends (_ ∷ t) = wsa_ends t

-- Since `t` the run has made each socket as often as it has closed it, and once more for each time
-- that it is in `k`; and it has started Winsock `w` times more than it has ended it.
pub record Holds (k : List ℤ) (w : ℕ) (t u : Trace) : Type 0 where
  pub sockets :
      (x : ℤ)
      → sockets_made x u + sockets_closed x t ≡ sockets_made x t + sockets_closed x u + times x k
  pub winsock : wsa_starts u + wsa_ends t ≡ wsa_starts t + wsa_ends u + w

pub Holds-start : (t : Trace) → Holds [] 0 t t
Holds-start t = record { sockets = λ x. omega arith; winsock = omega arith }

module _ {k : List ℤ} {w : ℕ} {t u : Trace} where
  pub Holds-made :
      (s : ℤ)
      → eqb_ℤ s invalid_socket ≡ false
      → Holds k w t u
      → Holds (s ∷ k) w t (socket_made s ∷ u)
  unfolding sockets_made sockets_closed wsa_starts wsa_ends
  Holds-made s ok h = record {
    sockets = λ x. ground (arith, h.sockets x);
    winsock = ground (arith, h);
  }

  pub Holds-not_made :
      (s : ℤ) → eqb_ℤ s invalid_socket ≡ true → Holds k w t u → Holds k w t (socket_made s ∷ u)
  unfolding sockets_made sockets_closed wsa_starts wsa_ends
  Holds-not_made s ok h = record {
    sockets = λ x. ground (arith, h.sockets x);
    winsock = ground (arith, h);
  }

  pub Holds-closed : (s : ℤ) → Holds (s ∷ k) w t u → Holds k w t (socket_closed s ∷ u)
  unfolding sockets_made sockets_closed wsa_starts wsa_ends
  Holds-closed s h = record {
    sockets = λ x. omega (arith, h.sockets x);
    winsock = omega (arith, h);
  }

  pub Holds-started :
      (r : ℤ) → eqb_ℤ r (pos 0) ≡ true → Holds k w t u → Holds k (suc w) t (wsa_started r ∷ u)
  unfolding sockets_made sockets_closed wsa_starts wsa_ends
  Holds-started r ok h = record {
    sockets = λ x. ground (arith, h.sockets x);
    winsock = ground (arith, h);
  }

  pub Holds-not_started :
      (r : ℤ) → eqb_ℤ r (pos 0) ≡ false → Holds k w t u → Holds k w t (wsa_started r ∷ u)
  unfolding sockets_made sockets_closed wsa_starts wsa_ends
  Holds-not_started r ok h = record {
    sockets = λ x. ground (arith, h.sockets x);
    winsock = ground (arith, h);
  }

  pub Holds-cleaned : Holds k (suc w) t u → Holds k w t (wsa_cleaned ∷ u)
  unfolding sockets_made sockets_closed wsa_starts wsa_ends
  Holds-cleaned h = record { sockets = λ x. omega (arith, h.sockets x); winsock = omega (arith, h) }

  pub Holds-bound : (s r : ℤ) → Holds k w t u → Holds k w t (bound s r ∷ u)
  unfolding sockets_made sockets_closed wsa_starts wsa_ends
  Holds-bound s r h = record {
    sockets = λ x. omega (arith, h.sockets x);
    winsock = omega (arith, h);
  }

  pub Holds-slept : Holds k w t u → Holds k w t (slept ∷ u)
  unfolding sockets_made sockets_closed wsa_starts wsa_ends
  Holds-slept h = record { sockets = λ x. omega (arith, h.sockets x); winsock = omega (arith, h) }

  pub Holds-read : (path : FilePath) → Holds k w t u → Holds k w t (read_config path ∷ u)
  unfolding sockets_made sockets_closed wsa_starts wsa_ends
  Holds-read path h = record {
    sockets = λ x. omega (arith, h.sockets x);
    winsock = omega (arith, h);
  }

  pub Holds-resolved : (name : List ℕ) → Holds k w t u → Holds k w t (resolved name ∷ u)
  unfolding sockets_made sockets_closed wsa_starts wsa_ends
  Holds-resolved name h = record {
    sockets = λ x. omega (arith, h.sockets x);
    winsock = omega (arith, h);
  }

  pub Holds-registered : (r : ℤ) → Holds k w t u → Holds k w t (registered r ∷ u)
  unfolding sockets_made sockets_closed wsa_starts wsa_ends
  Holds-registered r h = record {
    sockets = λ x. omega (arith, h.sockets x);
    winsock = omega (arith, h);
  }
