-- ===== src/Storage/Contents.antt =====
-- The block store of src/db.rs as a map from `Cid`s to data: what inserts and reads mean for it.
use ipfs_embed.Common.{ℕ, ◌≡◌, ap, ◌∙◌, Option, some, List, if◌then◌else◌, ◌==◌, nat_eq}
use ipfs_embed.Behaviour.{Cid}
use ipfs_embed.Storage.{BlockStore, Storage, ok, Block}
use ipfs_embed.Storage.Batch.{Batch}
use ipfs_embed.Storage.Batch
use ipfs_embed.Storage.Calls
use ipfs_embed.Storage.Calls.{run_rw}
use ipfs_embed.Storage.Atomic.{run_rw-IsCommitted}

-- What the store's documentation says of blocks: reads answer what the transaction holds, a put adds
-- one block, and a commit publishes what the transaction holds.
pub record IsBlockStore (S : BlockStore) : Type 0 where
  pub view : S.State → Cid → Option (List ℕ)
  pub held : S.Transaction → Cid → Option (List ℕ)
  pub held-transaction : (s : S.State) (k : Cid) → held (S.transaction s) k ≡ view s k
  pub view-commit :
      (s : S.State) (txn : S.Transaction) (k : Cid)
      → (S.commit s txn).1 ≡ ok tt
      → view (S.commit s txn).0 k ≡ held txn k
  pub get_block_lem :
      (c : Cid) (txn : S.Transaction) (r : Option (List ℕ))
      → (S.get_block c txn).1 ≡ ok r
      → r ≡ held txn c
  pub put_block_lem :
      (b : Block) (txn : S.Transaction) (k : Cid)
      → (S.put_block b txn).1 ≡ ok tt
      → held (S.put_block b txn).0 k ≡ (if b.cid == k then some b.bytes else held txn k)

module _ (S : BlockStore) (l : IsBlockStore S) where
  abbrev pub stored : Storage S → Cid → Option (List ℕ)
  stored s k = l.view s.store k

  -- After a call that answers a value, the map is what its batch left in the transaction.
  stored-run_rw {ℓ} :
      {A : Type ℓ} (op : _) (f : Batch S A) (s : Storage S) (a : A) (k : Cid)
      → (run_rw S op f s).1 ≡ ok a
      → ((f (S.transaction s.store)).1 ≡ ok a)
        × (stored (run_rw S op f s).0 k ≡ l.held (f (S.transaction s.store)).0 k)
  stored-run_rw op f s a k h =
      let p = run_rw-IsCommitted S op f s a h in
      let txn = (f (S.transaction s.store)).0 in
      (p.0, ap (λ t. l.view t k) p.2 ∙ l.view-commit s.store txn k p.1)

  -- A read answers what the map holds.
  pub stored-get :
      (c : Cid) (s : Storage S) (r : Option (List ℕ)) → (Calls.get S c s).1 ≡ ok r → r ≡ stored s c
  unfolding Calls.get Batch.get
  stored-get c s r h =
      let txn = S.transaction s.store in
      l.get_block_lem c txn r (stored-run_rw "get" (S.get_block c) s r c h).0
      ∙ l.held-transaction s.store c

  -- An insert that succeeds adds its block to the map.
  pub stored-insert :
      (b : Block) (s : Storage S) (k : Cid)
      → (Calls.insert S b s).1 ≡ ok tt
      → stored (Calls.insert S b s).0 k ≡ (if b.cid == k then some b.bytes else stored s k)
  unfolding Calls.insert Batch.insert
  stored-insert b s k h =
      let txn = S.transaction s.store in
      let p = stored-run_rw "insert" (S.put_block b) s tt k h in
      p.1
      ∙ (l.put_block_lem b txn k p.0
          ∙ ap (λ o. if b.cid == k then some b.bytes else o) (l.held-transaction s.store k))
