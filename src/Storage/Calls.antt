-- ===== src/Storage/Calls.antt =====
-- `StorageService` of src/db.rs: each call is one transaction of `rw`.
use ipfs_embed.Common.{ℕ, zero, suc, String, Bool, true, false, Option, none, some, List}
use ipfs_embed.Behaviour.{Cid, Done}
use ipfs_embed.Storage.{BlockStore, Storage, Answer, ok, failed, Alias, Block, count}
use ipfs_embed.Storage.Batch
use ipfs_embed.Storage.Batch.{Batch}

module _ (S : BlockStore) where
  -- What `rw` answers after `txn.0.commit()?`.
  abbrev pub committed {ℓ} :
      {A : Type ℓ} → A → Storage S → S.State × Answer Done → Storage S × Answer A
  committed a s (store, ok done) = (record s { store = store }, ok a)
  committed a s (store, failed e) = (record s { store = store }, failed e)

  -- The end of `rw`: a transaction is committed where the batch succeeded, and else dropped.
  abbrev pub ended {ℓ} : {A : Type ℓ} → Storage S → S.Transaction × Answer A → Storage S × Answer A
  ended s (txn, ok a) = committed a s (S.commit s.store txn)
  ended s (txn, failed e) = (record s { store = S.rollback s.store txn }, failed e)

  -- `rw`
  unfoldable pub run_rw {ℓ} : {A : Type ℓ} → String → Batch S A → Storage S → Storage S × Answer A
  run_rw op f s = ended (count op s) (f (S.transaction s.store))

  unfoldable pub create_temp_pin : Storage S → Storage S × Answer S.TempPin
  unfolding run_rw
  create_temp_pin = run_rw "create_temp_pin" (Batch.create_temp_pin S)

  -- The pin is the caller's: what the batch did to it stays, whatever becomes of the transaction.
  unfoldable pub temp_pin : S.TempPin → List Cid → Storage S → (Storage S × Answer Done) × S.TempPin
  temp_pin temp links s =
      let r = Batch.temp_pin S links (S.transaction s.store, temp) in
      (ended (count "temp_pin" s) (r.0.0, r.1), r.0.1)

  unfoldable pub iter : Storage S → Storage S × Answer (List Cid)
  unfolding run_rw
  iter = run_rw "iter" (Batch.iter S)

  unfoldable pub contains : Cid → Storage S → Storage S × Answer Bool
  unfolding run_rw
  contains cid = run_rw "contains" (Batch.contains S cid)

  unfoldable pub get : Cid → Storage S → Storage S × Answer (Option (List ℕ))
  unfolding run_rw
  get cid = run_rw "get" (Batch.get S cid)

  unfoldable pub insert : Block → Storage S → Storage S × Answer Done
  unfolding run_rw
  insert block = run_rw "insert" (Batch.insert S block)

  unfoldable pub alias : Alias → Option Cid → Storage S → Storage S × Answer Done
  unfolding run_rw
  alias name cid = run_rw "alias" (Batch.alias S name cid)

  unfoldable pub aliases : Storage S → Storage S × Answer (List (Alias × Cid))
  unfolding run_rw
  aliases = run_rw "aliases" (Batch.aliases S)

  unfoldable pub resolve : Alias → Storage S → Storage S × Answer (Option Cid)
  unfolding run_rw
  resolve name = run_rw "resolve" (Batch.resolve S name)

  unfoldable pub reverse_alias : Cid → Storage S → Storage S × Answer (Option (List Alias))
  unfolding run_rw
  reverse_alias cid = run_rw "reverse_alias" (Batch.reverse_alias S cid)

  unfoldable pub missing_blocks : Cid → Storage S → Storage S × Answer (List Cid)
  unfolding run_rw
  missing_blocks cid = run_rw "missing_blocks" (Batch.missing_blocks S cid)

  -- One round of the garbage collector's task, which ignores an error.
  unfoldable pub collect_once : Storage S → Storage S
  collect_once s = record s {
    store = (S.incremental_gc s.gc_min_blocks s.gc_target_duration s.store).0;
  }

  -- What one round of the loop of `evict` decides.
  abbrev pub evict_round :
      (Storage S → Option (Storage S × Answer Done))
      → Storage S
      → S.State × Answer Bool
      → Option (Storage S × Answer Done)
  evict_round again s (store, ok true) = some (record s { store = store }, ok tt)
  evict_round again s (store, ok false) = again (record s { store = store })
  evict_round again s (store, failed e) = some (record s { store = store }, failed e)

  -- `evict`, with fuel for its loop: `none` is a loop that has not ended.
  unfoldable pub evict : ℕ → Storage S → Option (Storage S × Answer Done)
  evict zero s = none
  evict (suc n) s =
      evict_round (evict n) s (S.incremental_gc s.gc_min_blocks s.gc_target_duration s.store)

  -- `flush`, counted by `observe_future`.
  unfoldable pub flush : Storage S → Storage S × Answer Done
  flush s = let r = S.flush s.store in (record (count "flush" s) { store = r.0 }, r.1)
