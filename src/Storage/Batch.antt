-- ===== src/Storage/Batch.antt =====
-- `Batch` of src/db.rs: the operations on one transaction.
use ipfs_embed.Common.{ℕ, Bool, Option, List, [], ◌∷◌}
use ipfs_embed.Behaviour.{Cid, Done}
use ipfs_embed.Storage.{BlockStore, Answer, ok, failed, Alias, Block}

-- `?`: what goes on after an answer that is no error.
abbrev pub and_then {ℓ κ} :
    {X : Type ℓ} {A B : Type κ} → X × Answer A → (A → X → X × Answer B) → X × Answer B
and_then (x, ok a) k = k a x
and_then (x, failed e) k = (x, failed e)

-- A call that changes the transaction and can fail.
abbrev pub Batch {ℓ} : BlockStore → Type ℓ → Type ℓ
Batch S A = S.Transaction → S.Transaction × Answer A

module _ (S : BlockStore) where
  unfoldable pub create_temp_pin : Batch S S.TempPin
  create_temp_pin txn = let r = S.temp_pin txn in (r.0, ok r.1)

  -- The links in turn, up to the first that fails.
  unfoldable pub temp_pin :
      List Cid → S.Transaction × S.TempPin → (S.Transaction × S.TempPin) × Answer Done
  temp_pin [] s = (s, ok tt)
  temp_pin (link ∷ links) s = and_then (S.extend_temp_pin link s) (λ _. temp_pin links)

  unfoldable pub iter : Batch S (List Cid)
  iter = S.get_block_cids

  unfoldable pub contains : Cid → Batch S Bool
  contains cid = S.has_block cid

  unfoldable pub get : Cid → Batch S (Option (List ℕ))
  get cid = S.get_block cid

  unfoldable pub insert : Block → Batch S Done
  insert block = S.put_block block

  unfoldable pub resolve : Alias → Batch S (Option Cid)
  resolve name = S.resolve name

  unfoldable pub alias : Alias → Option Cid → Batch S Done
  alias name cid = S.alias name cid

  unfoldable pub aliases : Batch S (List (Alias × Cid))
  aliases = S.aliases

  unfoldable pub reverse_alias : Cid → Batch S (Option (List Alias))
  reverse_alias cid = S.reverse_alias cid

  unfoldable pub missing_blocks : Cid → Batch S (List Cid)
  missing_blocks cid = S.get_missing_blocks cid
