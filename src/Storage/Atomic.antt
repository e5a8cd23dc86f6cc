-- ===== src/Storage/Atomic.antt =====
-- `rw` of src/db.rs, where it answers a value: what the batch and the commit did.
use ipfs_embed.Common.{String, ◌≡◌, refl, arith}
use ipfs_embed.Behaviour.{Done}
use ipfs_embed.Storage.{BlockStore, Storage, Answer, ok, failed, count}
use ipfs_embed.Storage.Batch.{Batch}
use ipfs_embed.Storage.Calls.{ended, committed, run_rw}

module _ (S : BlockStore) where
  -- The batch's answer `b` and the commit's answer `c` behind the answer `a` of a call that ends in
  -- the store `t`.
  abbrev pub IsCommitted {ℓ} :
      {A : Type ℓ} → A → S.Transaction × Answer A → S.State × Answer Done → S.State → Type ℓ
  IsCommitted a b c t = (b.1 ≡ ok a) × (c.1 ≡ ok tt) × (t ≡ c.0)

  committed-IsCommitted {ℓ} :
      {A : Type ℓ} (s : Storage S) (txn : S.Transaction) (x a : A) (c : S.State × Answer Done)
      → (committed S x s c).1 ≡ ok a
      → IsCommitted a (txn, ok x) c (committed S x s c).0.store
  committed-IsCommitted s txn x a (t, ok done) h = (h, refl, refl)
  committed-IsCommitted s txn x a (t, failed e) h = ground arith

  ended-IsCommitted {ℓ} :
      {A : Type ℓ} (s : Storage S) (a : A) (b : S.Transaction × Answer A)
      → (ended S s b).1 ≡ ok a
      → IsCommitted a b (S.commit s.store b.0) (ended S s b).0.store
  ended-IsCommitted s a (txn, failed e) h = ground arith
  ended-IsCommitted s a (txn, ok x) h = committed-IsCommitted s txn x a (S.commit s.store txn) h

  -- A call that answers a value answers that of its batch, after a commit that succeeded, and ends in
  -- the store that the commit left.
  pub run_rw-IsCommitted {ℓ} :
      {A : Type ℓ} (op : String) (f : Batch S A) (s : Storage S) (a : A)
      → (run_rw S op f s).1 ≡ ok a
      → let b = f (S.transaction s.store) in
        IsCommitted a b (S.commit s.store b.0) (run_rw S op f s).0.store
  unfolding run_rw
  run_rw-IsCommitted op f s a h = ended-IsCommitted (count op s) a (f (S.transaction s.store)) h
