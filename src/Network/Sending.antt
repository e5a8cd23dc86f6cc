-- ===== src/Network/Sending.antt =====
-- The methods of `NetworkService` in src/net/mod.rs that send commands.
use ipfs_embed.Common.{
  ℕ, String, Option, none, some, List, [], ◌∷◌, ◌++◌, ◌<>◌, ◌≡◌, refl, ◌≢◌, arith,
}
use ipfs_embed.Multiaddr.{PeerId, PeerCodec, Multiaddr, normalize_addr}
use ipfs_embed.PeerInfo.{Time}
use ipfs_embed.Behaviour.{Channel, Key, Cid, Record, Done, NetworkError}
use ipfs_embed.Service.{NetworkCommand}
use ipfs_embed.Service.Client.{ListenerEvent, SyncQuery, sync_early}
use ipfs_embed.Storage.{Answer}
use ipfs_embed.Network.{
  Sent, sent, full, disconnected, NetworkService, Called, cmd, tell, ask, order,
}

-- The event that the client sends itself where `ListenOn` could not be sent. The command comes back
-- from the channel with its address and sender.
abbrev pub listen_failure : Option (NetworkCommand × String) → NetworkService → NetworkService
listen_failure (some (NetworkCommand.listen_on addr tx, reason)) n = record n {
  events =
      n.events ++ (tx, ListenerEvent.listen_failed addr ("cannot send to Swarm: " <> reason)) ∷ [];
}
listen_failure _ n = n

unfoldable pub listen_on : Sent → Channel → Multiaddr → NetworkService → NetworkService
unfolding cmd
listen_on r tx addr n = let c = cmd r (NetworkCommand.listen_on addr tx) n in listen_failure c.1 c.0

unfoldable pub add_external_address : PeerCodec → Sent → Multiaddr → NetworkService → NetworkService
unfolding tell
add_external_address codec r addr n =
    tell r (NetworkCommand.add_external_address (normalize_addr codec addr n.peer_id)) n

module _ (r : Sent) where
  unfoldable pub add_address : PeerId → Multiaddr → NetworkService → NetworkService
  unfolding tell
  add_address peer addr = tell r (NetworkCommand.add_address peer addr)

  unfoldable pub remove_address : PeerId → Multiaddr → NetworkService → NetworkService
  unfolding tell
  remove_address peer addr = tell r (NetworkCommand.remove_address peer addr)

  unfoldable pub prune_peers : Time → NetworkService → NetworkService
  unfolding tell
  prune_peers min_age = tell r (NetworkCommand.prune_peers min_age)

  unfoldable pub dial : PeerId → NetworkService → NetworkService
  unfolding tell
  dial peer = tell r (NetworkCommand.dial peer)

  unfoldable pub dial_address : PeerId → Multiaddr → NetworkService → NetworkService
  unfolding tell
  dial_address peer addr = tell r (NetworkCommand.dial_address peer addr)

  unfoldable pub ban : PeerId → NetworkService → NetworkService
  unfolding tell
  ban peer = tell r (NetworkCommand.ban peer)

  unfoldable pub unban : PeerId → NetworkService → NetworkService
  unfolding tell
  unban peer = tell r (NetworkCommand.unban peer)

  unfoldable pub unprovide : Key → NetworkService → NetworkService × Answer Done
  unfolding order
  unprovide key = order r (NetworkCommand.unprovide key)

  unfoldable pub remove_record : Key → NetworkService → NetworkService × Answer Done
  unfolding order
  remove_record key = order r (NetworkCommand.remove_record key)

module _ (r : Sent) (tx : Channel) where
  unfoldable pub bootstrap : List (PeerId × Multiaddr) → NetworkService → NetworkService × Called
  unfolding ask
  bootstrap peers = ask r tx (NetworkCommand.bootstrap peers tx)

  unfoldable pub providers : Key → NetworkService → NetworkService × Called
  unfolding ask
  providers key = ask r tx (NetworkCommand.providers key tx)

  unfoldable pub provide : Key → NetworkService → NetworkService × Called
  unfolding ask
  provide key = ask r tx (NetworkCommand.provide key tx)

  unfoldable pub get_record : Key → NetworkService → NetworkService × Called
  unfolding ask
  get_record key = ask r tx (NetworkCommand.get_record key tx)

  unfoldable pub put_record : Record → NetworkService → NetworkService × Called
  unfolding ask
  put_record item = ask r tx (NetworkCommand.put_record item tx)

  unfoldable pub subscribe : String → NetworkService → NetworkService × Called
  unfolding ask
  subscribe topic = ask r tx (NetworkCommand.subscribe topic tx)

  unfoldable pub publish : String → List ℕ → NetworkService → NetworkService × Called
  unfolding ask
  publish topic msg = ask r tx (NetworkCommand.publish topic msg tx)

  unfoldable pub broadcast : String → List ℕ → NetworkService → NetworkService × Called
  unfolding ask
  broadcast topic msg = ask r tx (NetworkCommand.broadcast topic msg tx)

  unfoldable pub get : Cid → List PeerId → NetworkService → NetworkService × Called
  unfolding ask
  get cid from = ask r tx (NetworkCommand.get cid from tx)

  unfoldable pub swarm_events : NetworkService → NetworkService × Called
  unfolding ask
  swarm_events = ask r tx (NetworkCommand.swarm_events tx)

-- The future of `sync`: a query that is over, or the loop's answer.
pub data SyncCalled : Type 0 where
  early : SyncQuery → SyncCalled
  called : Called → SyncCalled

-- The rest of `sync`, where the two tests at its start answered nothing.
abbrev pub sync_or_ask :
    Option SyncQuery → NetworkService × Called → NetworkService → NetworkService × SyncCalled
sync_or_ask (some q) asked n = (n, early q)
sync_or_ask none (m, c) n = (m, called c)

unfoldable pub sync :
    (not_found : Cid → NetworkError)
    → Sent
    → Channel
    → Cid
    → (providers : List PeerId) → (missing : List Cid) → NetworkService
    → NetworkService × SyncCalled
unfolding ask sync_early
sync not_found r tx cid from missing n =
    sync_or_ask (sync_early not_found from missing)
      (ask r tx (NetworkCommand.sync cid from missing tx) n) n

-- A listener is heard of either way: its command is sent to the loop, or its channel gets one
-- failure that names the address. Nothing else changes.
pub listen_on_lem :
    (r : Sent) (tx : Channel) (addr : Multiaddr) (n : NetworkService)
    → (r ≡ sent
        → listen_on r tx addr n
          ≡ record n { commands = n.commands ++ NetworkCommand.listen_on addr tx ∷ [] })
      × (r ≢ sent
          → (reason : String) × (listen_on r tx addr n ≡ record n {
            events =
                n.events
                ++ (tx, ListenerEvent.listen_failed addr ("cannot send to Swarm: " <> reason)) ∷ [];
          }))
unfolding listen_on cmd
listen_on_lem sent tx addr n = (λ _. refl, λ h. absurd (h refl))
listen_on_lem full tx addr n = (λ h. ground arith, λ h. ("channel is full", refl))
listen_on_lem disconnected tx addr n = (λ h. ground arith, λ h. ("receiver went away", refl))
