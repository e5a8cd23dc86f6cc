-- ===== src/PeerInfo/Rtt/Average.antt =====
-- Bounds on the averages of `Rtt`.
use ipfs_embed.Common.{
  ℕ, zero, suc, ◌/◌, ◌+◌, ◌*◌, ◌≤◌, ◌<◌, ◌≡◌, refl, Option, none, some, List, [], ◌∷◌, arith, All,
}
use ipfs_embed.PeerInfo.Rtt.{
  Rtt, new, register, register_failure, observe, duration_limit, duration_mul, duration_add,
  u32_mod, decayed,
}

-- Rounding down loses at most 6 ns of the fast average and 18 ns of the slow one.
pub record IsBanded (lo hi : ℕ) (r : Rtt) : Type 0 where
  pub low_3 : lo ≤ r.decay_3 + 6
  pub high_3 : r.decay_3 ≤ hi
  pub low_10 : lo ≤ r.decay_10 + 18
  pub high_10 : r.decay_10 ≤ hi
  pub rate : r.failure_rate ≤ 999_901

abbrev pub InRange : ℕ → ℕ → Option ℕ → Type 0
InRange lo hi none = Unit {0}
InRange lo hi (some d) = (lo ≤ d) × (d ≤ hi)

register_failure-IsBanded :
    (lo hi : ℕ) (r : Rtt) → IsBanded lo hi r → IsBanded lo hi (register_failure r)
unfolding register_failure
register_failure-IsBanded lo hi r b = omega arith

register-IsBanded :
    (lo hi d : ℕ) (r : Rtt)
    → hi * 9 < duration_limit
    → lo ≤ d
    → d ≤ hi
    → IsBanded lo hi r
    → (r' : Rtt) × (register d r ≡ some r') × IsBanded lo hi r' × (r'.failures ≡ 0)
unfolding register duration_mul duration_add
register-IsBanded lo hi d r room l h b = (
  record {
    current = d;
    decay_3 = r.decay_3 * 7 / 10 + d * 3 / 10;
    decay_10 = r.decay_10 * 9 / 10 + d / 10;
    failures = 0;
    failure_rate = decayed r.failure_rate;
  },
  ground arith,
  omega arith,
  refl,
)

observe-IsBanded :
    (lo hi : ℕ) (pings : List (Option ℕ)) (r : Rtt)
    → hi * 9 < duration_limit
    → All (InRange lo hi) pings
    → IsBanded lo hi r
    → (r' : Rtt) × (observe pings r ≡ some r') × IsBanded lo hi r'
unfolding observe
observe-IsBanded lo hi [] r room p b = (r, refl, b)
observe-IsBanded lo hi (none ∷ pings) r room p b =
    observe-IsBanded lo hi pings (register_failure r) room p.1 (register_failure-IsBanded lo hi r b)
observe-IsBanded lo hi (some d ∷ pings) r room p b =
    let (r', e, b', _) = register-IsBanded lo hi d r room p.0.0 p.0.1 b in
    rw (e, observe) (observe-IsBanded lo hi pings r' room p.1 b')

-- Any history of pings on a fresh `Rtt`, with round trip times between `lo` and `hi` small enough
-- for `Duration`, goes without a panic; both averages stay below `hi`, the fast one within 6 ns and
-- the slow one within 18 ns of `lo` from below, and the failure rate never passes 999,901.
pub observe_bounds :
    (lo hi first : ℕ) (pings : List (Option ℕ))
    → hi * 9 < duration_limit
    → All (InRange lo hi) (some first ∷ pings)
    → (r : Rtt) × (observe pings (new first) ≡ some r) × IsBanded lo hi r
unfolding new
observe_bounds lo hi first pings room p =
    observe-IsBanded lo hi pings (new first) room p.1 (omega arith)

-- The failures of a row, after a successful ping.
abbrev pub fails : ℕ → List (Option ℕ)
fails zero = []
fails (suc n) = none ∷ fails n

observe-fails :
    (n : ℕ) (r : Rtt)
    → r.failures + n < u32_mod
    → (r' : Rtt) × (observe (fails n) r ≡ some r') × (r'.failures ≡ r.failures + n)
unfolding observe register_failure
observe-fails zero r h = (r, refl, omega arith)
observe-fails (suc n) r h =
    let (r', e, f) = observe-fails n (register_failure r) (omega arith) in (r', e, omega arith)

-- For an `Rtt` whose averages lie in a band that `Duration` holds: a ping in the band and then `n`
-- failures, with `n` below 2^32, go without a panic and leave the failure counter at `n`.
pub failures-observe :
    (d n lo hi : ℕ) (r : Rtt)
    → hi * 9 < duration_limit
    → lo ≤ d
    → d ≤ hi
    → IsBanded lo hi r
    → n < u32_mod
    → (r' : Rtt) × (observe (some d ∷ fails n) r ≡ some r') × (r'.failures ≡ n)
unfolding observe
failures-observe d n lo hi r room l h b fits =
    let (r', e, _, z) = register-IsBanded lo hi d r room l h b in
    let (r'', e', f) = observe-fails n r' (omega arith) in (r'', rw (e, observe) e', omega arith)
