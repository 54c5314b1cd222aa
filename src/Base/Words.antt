-- ===== src/Base/Words.antt =====
-- Machine words with their wrap-around, and `std::time::Duration` as a count of nanoseconds.
use Prim.Native.Nat.{ℕ, ◌+◌, ◌-◌, ◌*◌, ◌/◌, ◌%◌, ◌^◌, ◌<◌, min}
use mathlib.Core.Path.{◌≡◌}
use native.Mathlib.Omega.{arith}

-- `fetch_add(1)` and `fetch_sub(1)` on an `AtomicU64` (and on a 64-bit `AtomicUsize`) wrap.
abbrev pub inc64 : ℕ → ℕ
inc64 n = (n + 1) % 2 ^ 64

abbrev pub dec64 : ℕ → ℕ
dec64 n = (n + (2 ^ 64 - 1)) % 2 ^ 64

abbrev pub u64_max : ℕ
u64_max = 2 ^ 64 - 1

abbrev pub as_millis : ℕ → ℕ
as_millis nanos = nanos / 1000000

abbrev pub as_secs : ℕ → ℕ
as_secs nanos = nanos / 1000000000

abbrev pub from_secs : ℕ → ℕ
from_secs s = s * 1000000000

-- `d.as_millis().min(u64::MAX as u128) as u64`.
abbrev pub millis_u64 : ℕ → ℕ
millis_u64 nanos = min (as_millis nanos) u64_max

pub dec64-inc64 : (n : ℕ) → n < 2 ^ 64 → dec64 (inc64 n) ≡ n
dec64-inc64 n h = omega arith
