-- ===== src/PeerInfo/Rtt.antt =====
-- `Rtt` of src/net/peer_info.rs: moving averages of ping times, and a failure rate in fixed point.
-- A `Duration` is its nanoseconds; its arithmetic panics past `Duration::MAX`, which is `none` here.
pub mod Average
use ipfs_embed.Common.{
  ℕ, ◌+◌, ◌*◌, ◌/◌, ◌%◌, ◌^◌, Option, none, some, List, [], ◌∷◌, ltb, if◌then◌else◌, ◌>>=◌,
}

abbrev pub u32_mod : ℕ
u32_mod = 2 ^ 32

-- One nanosecond more than `Duration::MAX`.
unfoldable pub duration_limit : ℕ
duration_limit = 2 ^ 64 * 1_000_000_000

unfoldable pub duration_mul : ℕ → ℕ → Option ℕ
duration_mul d k = if ltb (d * k) duration_limit then some (d * k) else none

unfoldable pub duration_add : ℕ → ℕ → Option ℕ
duration_add a b = if ltb (a + b) duration_limit then some (a + b) else none

pub record Rtt : Type 0 where
  pub current : ℕ
  pub decay_3 : ℕ
  pub decay_10 : ℕ
  pub failures : ℕ
  pub failure_rate : ℕ

unfoldable pub new : ℕ → Rtt
new current = record {
  current = current;
  decay_3 = current;
  decay_10 = current;
  failures = 0;
  failure_rate = 0;
}

-- `rate * 99 / 100` on `u32`
abbrev pub decayed : ℕ → ℕ
decayed rate = rate * 99 % u32_mod / 100

unfoldable pub register : ℕ → Rtt → Option Rtt
register current r = do
  old_3 ← duration_mul r.decay_3 7
  new_3 ← duration_mul current 3
  sum_3 ← duration_add (old_3 / 10) (new_3 / 10)
  old_10 ← duration_mul r.decay_10 9
  sum_10 ← duration_add (old_10 / 10) (current / 10)
  some (record {
    current = current;
    decay_3 = sum_3;
    decay_10 = sum_10;
    failures = 0;
    failure_rate = decayed r.failure_rate;
  })

unfoldable pub register_failure : Rtt → Rtt
register_failure r = record r {
  failures = (r.failures + 1) % u32_mod;
  failure_rate = (decayed r.failure_rate + 10_000) % u32_mod;
}

-- A history of pings, oldest first: a round trip time, or a failure.
unfoldable pub observe : List (Option ℕ) → Rtt → Option Rtt
observe [] r = some r
observe (none ∷ pings) r = observe pings (register_failure r)
observe (some d ∷ pings) r = do r' ← register d r; observe pings r'
