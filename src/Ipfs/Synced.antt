-- ===== src/Ipfs/Synced.antt =====
-- `sync` of src/lib.rs on each of its branches, awaited as `Store::sync` awaits it.
use ipfs_embed.Common.{◌≡◌, ◌≢◌, refl, some, List, [], ◌∷◌, arith}
use ipfs_embed.Multiaddr.{PeerId}
use ipfs_embed.Behaviour.{Channel, Cid, NetworkError}
use ipfs_embed.Service.{NetworkCommand}
use ipfs_embed.Service.Client.{ready, SyncQuery, poll_sync, sync_early, ready_query}
use ipfs_embed.Storage.{BlockStore, ok, failed, Error}
use ipfs_embed.Storage.Calls
use ipfs_embed.Network.{Sent, Received, queued, ask, cmd, NetworkService}
use ipfs_embed.Network.Sending
use ipfs_embed.Network.Sending.{SyncCalled, called}
use ipfs_embed.Ipfs.{Ipfs, sync, await_sync, or_default}

module _ (S : BlockStore) (not_found : Cid → NetworkError) (r : Sent) (tx : Channel) (cid : Cid)
    (query : Received SyncQuery) where
  -- The branches of a call, by the list of missing blocks, for the network `n`, with the answer `q`.
  abbrev pub Branches :
      List PeerId → List Cid → NetworkService → NetworkService × SyncCalled → Type 0
  Branches providers missing n q =
      (missing ≡ [] → (await_sync S query q.1 ≡ some (ready (ok tt))) × (q.0 ≡ n))
      × ((c : Cid) (cs : List Cid)
          → missing ≡ c ∷ cs
          → providers ≡ []
          → (await_sync S query q.1 ≡ some (ready (failed (Error.network (not_found c)))))
            × (q.0 ≡ n))
      × (missing ≢ []
          → providers ≢ []
          → q.0 ≡ queued r (NetworkCommand.sync cid providers missing tx) n)

  sending-Branches :
      (providers : List PeerId) (missing : List Cid) (n : NetworkService)
      → Branches providers missing n (Sending.sync not_found r tx cid providers missing n)
  unfolding Sending.sync sync_early ready_query await_sync poll_sync ask cmd
  sending-Branches providers [] n =
      (λ h. (refl, refl), λ c cs h. ground arith, λ h. absurd (h refl))
  sending-Branches [] (c ∷ cs) n =
      (λ h. ground arith, λ d ds h _. (cc, refl), λ _ h. absurd (h refl))
  sending-Branches (p ∷ providers) (c ∷ cs) n =
      (λ h. ground arith, λ d ds _ h. ground arith, λ _ _. refl)

  -- What the store lists as missing, or nothing where it fails.
  abbrev pub listed : Ipfs S → List Cid
  listed i = or_default S (Calls.missing_blocks S cid i.storage).1

  -- A sync of nothing missing succeeds and asks nothing of the network; with no provider it answers
  -- that the first missing block is not found, and asks nothing either; else its command is sent.
  -- Nothing counts as missing also where the store fails to list what is missing.
  pub sync_lem :
      (providers : List PeerId) (i : Ipfs S)
      → (let q = sync S not_found r tx cid providers i in
          Branches providers (listed i) i.network (q.0.network, q.1))
        × ((e : Error) → (Calls.missing_blocks S cid i.storage).1 ≡ failed e → listed i ≡ [])
  unfolding sync
  sync_lem providers i = (sending-Branches providers (listed i) i.network, λ e h. rw h refl)
