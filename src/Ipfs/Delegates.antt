-- ===== src/Ipfs/Delegates.antt =====
-- The methods of `Ipfs` in src/lib.rs that hand a call on to the store or to the network, and those of
-- its `Store`.
use ipfs_embed.Common.{ℕ, String, Bool, Option, List, [], ◌∷◌}
use ipfs_embed.Multiaddr.{PeerId, PeerCodec, Multiaddr}
use ipfs_embed.PeerInfo.{Time}
use ipfs_embed.Behaviour.{Channel, Key, Cid, Record, Done, NetworkError}
use ipfs_embed.Service.Client.{Poll, SyncQuery}
use ipfs_embed.Storage.{BlockStore, Answer, Block, Alias}
use ipfs_embed.Storage.Batch.{Batch}
use ipfs_embed.Storage.Calls
use ipfs_embed.Network.{Sent, NetworkService, Called, Received}
use ipfs_embed.Network.Sending
use ipfs_embed.Ipfs
use ipfs_embed.Ipfs.{Ipfs, Fetching, on_storage}

module _ (S : BlockStore) where
  abbrev pub on_network : (NetworkService → NetworkService) → Ipfs S → Ipfs S
  on_network f i = record i { network = f i.network }

  abbrev pub through_network {ℓ} :
      {A : Type ℓ} → (NetworkService → NetworkService × A) → Ipfs S → Ipfs S × A
  through_network f i = let r = f i.network in (record i { network = r.0 }, r.1)

  unfoldable pub local_peer_id : Ipfs S → PeerId
  local_peer_id i = i.network.peer_id

  unfoldable pub local_node_name : Ipfs S → String
  local_node_name i = i.network.node_name

  unfoldable pub listen_on : Sent → Channel → Multiaddr → Ipfs S → Ipfs S
  listen_on r tx addr = on_network (Sending.listen_on r tx addr)

  unfoldable pub add_external_address : PeerCodec → Sent → Multiaddr → Ipfs S → Ipfs S
  add_external_address codec r addr = on_network (Sending.add_external_address codec r addr)

  unfoldable pub add_address : Sent → PeerId → Multiaddr → Ipfs S → Ipfs S
  add_address r peer addr = on_network (Sending.add_address r peer addr)

  unfoldable pub remove_address : Sent → PeerId → Multiaddr → Ipfs S → Ipfs S
  remove_address r peer addr = on_network (Sending.remove_address r peer addr)

  unfoldable pub prune_peers : Sent → Time → Ipfs S → Ipfs S
  prune_peers r min_age = on_network (Sending.prune_peers r min_age)

  unfoldable pub dial : Sent → PeerId → Ipfs S → Ipfs S
  dial r peer = on_network (Sending.dial r peer)

  unfoldable pub dial_address : Sent → PeerId → Multiaddr → Ipfs S → Ipfs S
  dial_address r peer addr = on_network (Sending.dial_address r peer addr)

  unfoldable pub ban : Sent → PeerId → Ipfs S → Ipfs S
  ban r peer = on_network (Sending.ban r peer)

  unfoldable pub unban : Sent → PeerId → Ipfs S → Ipfs S
  unban r peer = on_network (Sending.unban r peer)

  unfoldable pub unprovide : Sent → Key → Ipfs S → Ipfs S × Answer Done
  unprovide r key = through_network (Sending.unprovide r key)

  unfoldable pub remove_record : Sent → Key → Ipfs S → Ipfs S × Answer Done
  remove_record r key = through_network (Sending.remove_record r key)

  unfoldable pub bootstrap : Sent → Channel → List (PeerId × Multiaddr) → Ipfs S → Ipfs S × Called
  bootstrap r tx nodes = through_network (Sending.bootstrap r tx nodes)

  unfoldable pub providers : Sent → Channel → Key → Ipfs S → Ipfs S × Called
  providers r tx key = through_network (Sending.providers r tx key)

  unfoldable pub provide : Sent → Channel → Key → Ipfs S → Ipfs S × Called
  provide r tx key = through_network (Sending.provide r tx key)

  unfoldable pub get_record : Sent → Channel → Key → Ipfs S → Ipfs S × Called
  get_record r tx key = through_network (Sending.get_record r tx key)

  unfoldable pub put_record : Sent → Channel → Record → Ipfs S → Ipfs S × Called
  put_record r tx item = through_network (Sending.put_record r tx item)

  unfoldable pub subscribe : Sent → Channel → String → Ipfs S → Ipfs S × Called
  subscribe r tx topic = through_network (Sending.subscribe r tx topic)

  unfoldable pub publish : Sent → Channel → String → List ℕ → Ipfs S → Ipfs S × Called
  publish r tx topic msg = through_network (Sending.publish r tx topic msg)

  unfoldable pub broadcast : Sent → Channel → String → List ℕ → Ipfs S → Ipfs S × Called
  broadcast r tx topic msg = through_network (Sending.broadcast r tx topic msg)

  unfoldable pub swarm_events : Sent → Channel → Ipfs S → Ipfs S × Called
  swarm_events r tx = through_network (Sending.swarm_events r tx)

  unfoldable pub create_temp_pin : Ipfs S → Ipfs S × Answer S.TempPin
  create_temp_pin = on_storage S (Calls.create_temp_pin S)

  unfoldable pub iter : Ipfs S → Ipfs S × Answer (List Cid)
  iter = on_storage S (Calls.iter S)

  unfoldable pub contains : Cid → Ipfs S → Ipfs S × Answer Bool
  contains cid = on_storage S (Calls.contains S cid)

  unfoldable pub alias : Alias → Option Cid → Ipfs S → Ipfs S × Answer Done
  alias name cid = on_storage S (Calls.alias S name cid)

  unfoldable pub aliases : Ipfs S → Ipfs S × Answer (List (Alias × Cid))
  aliases = on_storage S (Calls.aliases S)

  unfoldable pub resolve : Alias → Ipfs S → Ipfs S × Answer (Option Cid)
  resolve name = on_storage S (Calls.resolve S name)

  unfoldable pub reverse_alias : Cid → Ipfs S → Ipfs S × Answer (Option (List Alias))
  reverse_alias cid = on_storage S (Calls.reverse_alias S cid)

  unfoldable pub flush : Ipfs S → Ipfs S × Answer Done
  flush = on_storage S (Calls.flush S)

  -- One root, `std::iter::once(*cid)`.
  unfoldable pub temp_pin : S.TempPin → Cid → Ipfs S → (Ipfs S × Answer Done) × S.TempPin
  temp_pin temp cid i =
      let r = Calls.temp_pin S temp (cid ∷ []) i.storage in
      ((record i { storage = r.0.0 }, r.0.1), r.1)

  -- `evict`, with fuel for its loop.
  unfoldable pub evict : ℕ → Ipfs S → Option (Ipfs S × Answer Done)
  evict fuel i = elim (Calls.evict S fuel i.storage) [
    | Option.none ↦ Option.none
    | Option.some r ↦ Option.some (record i { storage = r.0 }, r.1)
  ]

  unfoldable pub batch_ops {ℓ} : {A : Type ℓ} → Batch S A → Ipfs S → Ipfs S × Answer A
  batch_ops f = on_storage S (Calls.run_rw S "batch_ops" f)

  -- `fetch` and `sync` of `Store`, with the known peers as providers.
  unfoldable pub store_fetch : List PeerId → Fetching S → Cid → Ipfs S → Ipfs S × Answer Block
  store_fetch peers w cid i = Ipfs.fetch S w cid peers i

  unfoldable pub store_sync :
      List PeerId
      → (not_found : Cid → NetworkError) → Sent
      → Channel
      → Received SyncQuery
      → Cid
      → Ipfs S
      → Ipfs S × Option (Poll (Answer Done))
  store_sync peers not_found r tx query cid i =
      let q = Ipfs.sync S not_found r tx cid peers i in (q.0, Ipfs.await_sync S query q.1)
