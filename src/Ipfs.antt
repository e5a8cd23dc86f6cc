-- ===== src/Ipfs.antt =====
-- `Ipfs` of src/lib.rs: the store and the network behind one handle. What other tasks do while a
-- future waits, and what its channels bring, are arguments (`Fetching`, `Syncing`).
pub mod Delegates
pub mod Fetched
pub mod Synced
pub mod Config
use ipfs_embed.Common.{
  ℕ, String, Bool, true, false, Option, none, some, List, [], ◌∷◌, ◌++◌, suc, length,
}
use ipfs_embed.Multiaddr.{PeerId}
use ipfs_embed.Behaviour.{Channel, Cid, Result, Done, NetworkError, QueryId}
use ipfs_embed.Service.Client.{Poll, ready, pending, SyncQuery, poll_sync, drop_sync}
use ipfs_embed.Storage.{BlockStore, Storage, Answer, ok, failed, Error, block_not_found, Block}
use ipfs_embed.Storage.Calls
use ipfs_embed.Network.{
  Sent, NetworkService, Received, received, dropped, Called, refused, waiting, await_value,
  answer_of, end_of, GetQuery, drop_get,
}
use ipfs_embed.Network.Sending
use ipfs_embed.Network.Sending.{SyncCalled, early, called}

pub record Ipfs (S : BlockStore) : Type 0 where
  pub storage : Storage S
  pub network : NetworkService

-- What happens around one `fetch`: the answer to its command, its channel, the query that the loop
-- answers, the query's end, the answer to the command of its drop, and what became of the store.
pub record Fetching (S : BlockStore) : Type 0 where
  pub command : Sent
  pub channel : Channel
  pub query : Received GetQuery
  pub outcome : Received (Result Done)
  pub cancel : Sent
  pub meanwhile : Storage S → Storage S

module _ (S : BlockStore) where
  -- `Block::new_unchecked`, or `BlockNotFound`.
  abbrev pub found : Cid → Answer (Option (List ℕ)) → Answer Block
  found cid (ok (some bytes)) = ok (record { cid = cid; bytes = bytes })
  found cid (ok none) = failed (block_not_found cid)
  found cid (failed e) = failed e

  abbrev pub on_storage {ℓ} :
      {A : Type ℓ} → (Storage S → Storage S × Answer A) → Ipfs S → Ipfs S × Answer A
  on_storage f i = let r = f i.storage in (record i { storage = r.0 }, r.1)

  unfoldable pub get : Cid → Ipfs S → Ipfs S × Answer Block
  get cid i = let r = Calls.get S cid i.storage in (record i { storage = r.0 }, found cid r.1)

  -- The two awaits of `network.get(..).await?.await?`; the query is dropped after the second.
  abbrev pub queried : Fetching S → Received GetQuery → Ipfs S → Ipfs S × Answer Done
  queried w dropped i = (i, failed Error.canceled)
  queried w (received q) i =
      (record i { network = drop_get w.cancel q i.network }, end_of w.outcome)

  abbrev pub settled : Fetching S → Called → Ipfs S → Ipfs S × Answer Done
  settled w (refused reason) i = (i, failed (Error.not_sent reason))
  settled w (waiting tx) i = queried w w.query (record i { storage = w.meanwhile i.storage })

  abbrev pub ask_network : Fetching S → Cid → List PeerId → Ipfs S → Ipfs S × Answer Done
  ask_network w cid providers i =
      let r = Sending.get w.command w.channel cid providers i.network in
      settled w r.1 (record i { network = r.0 })

  -- After `await?`, the second read of the store.
  abbrev pub read_again : Cid → Ipfs S × Answer Done → Ipfs S × Answer Block
  read_again cid (i, failed e) = (i, failed e)
  read_again cid (i, ok done) = get cid i

  abbrev pub fetch_missing : Fetching S → Cid → List PeerId → Ipfs S → Ipfs S × Answer Block
  fetch_missing w cid [] i = (i, failed (block_not_found cid))
  fetch_missing w cid (p ∷ providers) i = read_again cid (ask_network w cid (p ∷ providers) i)

  abbrev pub fetch_rest :
      Fetching S → Cid → List PeerId → Ipfs S → Answer (Option (List ℕ)) → Ipfs S × Answer Block
  fetch_rest w cid providers i (ok (some bytes)) = (i, ok (record { cid = cid; bytes = bytes }))
  fetch_rest w cid providers i (failed e) = (i, failed e)
  fetch_rest w cid providers i (ok none) = fetch_missing w cid providers i

  unfoldable pub fetch : Fetching S → Cid → List PeerId → Ipfs S → Ipfs S × Answer Block
  unfolding get
  fetch w cid providers i =
      let r = Calls.get S cid i.storage in
      fetch_rest w cid providers (record i { storage = r.0 }) r.1

  unfoldable pub insert : Block → Ipfs S → Ipfs S × Answer Done
  insert block = on_storage (Calls.insert S block)

  -- `.ok().unwrap_or_default()`
  abbrev pub or_default : Answer (List Cid) → List Cid
  or_default (ok cids) = cids
  or_default (failed e) = []

  unfoldable pub sync :
      (not_found : Cid → NetworkError)
      → Sent
      → Channel
      → Cid
      → List PeerId
      → Ipfs S
      → Ipfs S × SyncCalled
  sync not_found command tx cid providers i =
      let r = Calls.missing_blocks S cid i.storage in
      let q = Sending.sync not_found command tx cid providers (or_default r.1) i.network in
      (record { storage = r.0; network = q.0 }, q.1)

  -- A poll of the query, with fuel for each of its messages.
  abbrev pub poll_answer : Poll (Result Done) → Poll (Answer Done)
  poll_answer (ready r) = ready (answer_of r)
  poll_answer pending = pending

  abbrev pub polled : Option (Poll (Result Done) × SyncQuery) → Option (Poll (Answer Done))
  polled none = none
  polled (some (p, q)) = some (poll_answer p)

  abbrev pub sync_end : Answer SyncQuery → Option (Poll (Answer Done))
  sync_end (failed e) = some (ready (failed e))
  sync_end (ok q) = polled (poll_sync (suc (length q.waiting)) q)

  -- `sync(..).await?.await`, by the query that the loop answers.
  unfoldable pub await_sync : Received SyncQuery → SyncCalled → Option (Poll (Answer Done))
  await_sync query (early q) = sync_end (ok q)
  await_sync query (called c) = sync_end (await_value c query)
