-- ===== src/Storage/Evicting.antt =====
-- `evict` of src/db.rs collects until nothing is left or the store fails.
use ipfs_embed.Common.{
  ℕ, zero, suc, ◌+◌, ◌*◌, ◌<◌, ◌≤◌, ◌≡◌, refl, Bool, true, false, Option, some, List, [], ◌∷◌, ◌++◌,
  ◌⊎◌, inl, inr, arith,
}
use ipfs_embed.PeerInfo.{Time}
use ipfs_embed.Behaviour.{Done}
use ipfs_embed.Storage.{BlockStore, Storage, Answer, ok, failed, Error}
use ipfs_embed.Storage.Calls.{evict, evict_round}

module _ (S : BlockStore) (min_blocks : ℕ) (duration : Time) where
  -- The store after `k` rounds of the collector, and what the rounds answered, the first one first.
  abbrev pub after : ℕ → S.State → S.State
  after zero s = s
  after (suc k) s = after k (S.incremental_gc min_blocks duration s).0

  abbrev pub verdicts : ℕ → S.State → List (Answer Bool)
  verdicts zero s = []
  verdicts (suc k) s = let r = S.incremental_gc min_blocks duration s in r.1 ∷ verdicts k r.0

-- The answer of `evict` after that of its last round.
abbrev pub IsVerdict : Answer Bool → Answer Done → Type 0
IsVerdict v a = (v ≡ ok true) × (a ≡ ok tt) ⊎ ((e : Error) × (v ≡ failed e) × (a ≡ failed e))

abbrev pub repeat {ℓ} : {A : Type ℓ} → ℕ → A → List A
repeat zero a = []
repeat (suc n) a = a ∷ repeat n a

module _ (S : BlockStore) (left : S.State → ℕ) where
  -- The end of the loop `o` from `s` after `k` rounds that are not the last, fewer than `n`.
  abbrev pub Ends : ℕ → Option (Storage S × Answer Done) → Storage S → Type 0
  Ends n o s =
      let min_blocks = s.gc_min_blocks in
      let duration = s.gc_target_duration in
      (k : ℕ) × (v : Answer Bool) × (a : Answer Done) × (k < n)
      × (k * min_blocks ≤ left s.store)
      × (verdicts S min_blocks duration (suc k) s.store ≡ repeat k (ok false) ++ v ∷ [])
      × IsVerdict v a
      × (o ≡ some (record s { store = after S min_blocks duration (suc k) s.store }, a))

module _ (S : BlockStore) (left : S.State → ℕ)
    (progress : (min_blocks : ℕ) (duration : Time) (s t : S.State)
      → S.incremental_gc min_blocks duration s ≡ (t, ok false)
      → left t + min_blocks ≤ left s) where
  -- What the loop does after a round with the outcome `c`.
  round-Ends :
      (n : ℕ) (s : Storage S) (c : S.State × Answer Bool)
      → S.incremental_gc s.gc_min_blocks s.gc_target_duration s.store ≡ c
      → ((u : S.State)
          → left u + s.gc_min_blocks ≤ left s.store
          → Ends S left n (evict S n (record s { store = u })) (record s { store = u }))
      → Ends S left (suc n) (evict_round S (evict S n) s c) s
  round-Ends n s (t, ok true) e ih =
      (0, ok true, ok tt, omega arith, omega arith, rw e refl, inl (refl, refl), rw (after, e) refl)
  round-Ends n s (t, failed x) e ih = (
    0,
    failed x,
    failed x,
    omega arith,
    omega arith,
    rw e refl,
    inr (x, refl, refl),
    rw (after, e) refl,
  )
  round-Ends n s (u, ok false) e ih =
      let p = progress s.gc_min_blocks s.gc_target_duration s.store u e in
      let (k, v, a, lt, le, vs, is, end) = ih u p in
      (suc k, v, a, omega arith, omega arith, rw (e, vs) refl, is, rw (after, e) end)

  -- Let a round that stops before the end have collected at least `gc_min_blocks`, as `left` counts
  -- what there is to collect. Then `evict` ends, with `n` units of fuel from fewer than `n` times
  -- `gc_min_blocks` blocks: after `k` rounds that stopped early, for which there were enough blocks,
  -- and one that collected the rest or failed. It leaves the store as these rounds left it, and
  -- answers what the last one did.
  pub evict_lem :
      (n : ℕ) (s : Storage S) → left s.store < n * s.gc_min_blocks → Ends S left n (evict S n s) s
  unfolding evict
  evict_lem zero s h = absurd (omega arith)
  evict_lem (suc n) s h =
      round-Ends n s (S.incremental_gc s.gc_min_blocks s.gc_target_duration s.store) refl
        (λ u p. evict_lem n (record s { store = u }) (omega arith))
