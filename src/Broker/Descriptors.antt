-- ===== src/Broker/Descriptors.antt =====
-- The descriptors of the broker's process: `setnonblock` of src/lib/BrokerImpl.cpp.
use Prim.Native.Nat.{bit_or}
use deprecated_yandex_contes.Base.{ℕ, ℤ, pos, negsuc, Result, ok, err, system_error}

-- `fcntl` with F_GETFL and with F_SETFL, on the descriptors of the process. It returns a negative
-- number if it fails.
pub record Fcntl (D : Type 0) : Type 0 where
  pub getfl : ℕ → D → ℤ
  pub setfl : ℕ → ℕ → D → ℤ × D

-- `O_NONBLOCK` of Linux.
abbrev pub o_nonblock : ℕ
o_nonblock = 2048

-- `if (fcntl(...) < 0) throw`.
unfoldable pub set_done : {D : Type 0} → ℤ × D → Result D
set_done (pos _, fds) = ok fds
set_done (negsuc _, fds) = err system_error

module _ {D : Type 0} (fcntl : Fcntl D) where
  -- `setnonblock`, from its second call of `fcntl` on, with what the first has returned.
  unfoldable pub set_flags : ℕ → ℤ → D → Result D
  unfolding set_done
  set_flags fd (negsuc _) fds = err system_error
  set_flags fd (pos flags) fds = set_done (fcntl.setfl fd (bit_or flags o_nonblock) fds)

  unfoldable pub setnonblock : ℕ → D → Result D
  unfolding set_flags
  setnonblock fd fds = set_flags fd (fcntl.getfl fd fds) fds
