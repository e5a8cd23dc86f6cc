-- ===== src/Behaviour.antt =====
-- `NetworkBackendBehaviour` of src/net/behaviour.rs, with the maps of src/net/mod.rs that its
-- methods are handed, and its events of mDNS, ping and identify. Kademlia, gossipsub and the other
-- protocols are libp2p's: the model records what they are asked, and each method takes what the
-- one call that it makes answers.
pub mod Queries
pub mod Starting
pub mod Topics
pub mod Refused
use ipfs_embed.Common.{
  ℕ, String, Bool, true, false, Option, none, some, List, [], ◌∷◌, ◌++◌, if◌then◌else◌, nat_eq,
  ℕ_discrete, of_discrete, HasEq,
}
use ipfs_embed.Common.Assoc.{Assoc}
use ipfs_embed.Multiaddr.{PeerId, Multiaddr, ConnectedPoint}
use ipfs_embed.PeerInfo.{AddressSource, PeerInfo}
use ipfs_embed.Events.{Env, Event, Sender, ListenerId, CloseCause}
use ipfs_embed.AddressBook
use ipfs_embed.AddressBook.{AddressBook}
use ipfs_embed.AddressBook.Identify
use ipfs_embed.AddressBook.Identify.{IdentifyInfo}

-- `QueryId(InnerQueryId)`
pub data QueryId : Type 0 where
  bitswap kad : ℕ → QueryId

unfoldable pub QueryId-discrete : Discrete QueryId
QueryId-discrete = hlevel ℕ_discrete

instance abbrev pub query_id_eq : HasEq QueryId
query_id_eq = of_discrete QueryId-discrete

-- A `oneshot` or an unbounded channel, by the number of its sending half.
abbrev pub Channel : Type 0
Channel = ℕ

abbrev pub Key : Type 0
Key = ℕ

abbrev pub Cid : Type 0
Cid = ℕ

pub data QueryChannel : Type 0 where
  get sync bootstrap get_closest_peers get_providers : Channel → QueryChannel
  start_providing get_record put_record : Channel → QueryChannel

-- The errors that a caller is given, with the text of a protocol's error.
pub data NetworkError : Type 0 where
  not_bootstrapped : NetworkError
  disabled_protocol kad_store no_known_peers kad_bootstrap kad_get_closest_peers :
      String → NetworkError
  kad_get_providers kad_add_provider kad_get_record kad_put_record : String → NetworkError
  gossipsub_subscribe gossipsub_publish bitswap_failed behaviour_failed : String → NetworkError

pub data Result {ℓ} (A : Type ℓ) : Type ℓ where
  ok : A → Result A
  err : NetworkError → Result A

-- `Record` and `PeerRecord`: the key and the value.
abbrev pub Record : Type 0
Record = Key × List ℕ

abbrev pub Done : Type 0
Done = Unit

-- What is sent on the channel of a query or of a command. The channel of a sync carries `progress`
-- until its `complete`; a `GetQuery` or `SyncQuery` is its id and its channel.
pub data Reply : Type 0 where
  unit complete : Result Done → Reply
  peers : Result (List PeerId) → Reply
  records : Result (List Record) → Reply
  progress : ℕ → Reply
  subscription : Result Channel → Reply
  query : QueryId → Channel → Reply
  events : Channel → Reply
  listen_failed : Multiaddr → String → Reply

pub data GossipEvent : Type 0 where
  subscribed unsubscribed : PeerId → GossipEvent
  message : PeerId → List ℕ → GossipEvent

-- What the protocols and the swarm are asked to do, and the tasks that are spawned.
pub data Request : Type 0 where
  kad_add_address kad_remove_address : PeerId → Multiaddr → Request
  kad_bootstrap : Request
  kad_start_providing kad_stop_providing kad_get_providers kad_get_record kad_remove_record :
      Key → Request
  kad_put_record : Record → Request
  gossipsub_subscribe gossipsub_unsubscribe broadcast_subscribe broadcast_unsubscribe :
      String → Request
  gossipsub_publish broadcast_message : String → List ℕ → Request
  bitswap_get : Cid → List PeerId → Request
  bitswap_sync : Cid → List PeerId → List Cid → Request
  bitswap_cancel : ℕ → Request
  listen_on add_external_address : Multiaddr → Request
  forward_listener_events : ListenerId → Channel → Channel → Request
  ban unban : PeerId → Request

-- Which protocols are on: the `Toggle` fields, and the `Option` fields of `NetworkConfig`.
pub record Protocols : Type 0 where
  pub mdns : Bool
  pub kad : Bool
  pub ping : Bool
  pub identify : Bool
  pub gossipsub : Bool
  pub broadcast : Bool
  pub bitswap : Bool

-- `NetworkBackendBehaviour`, the maps of `poll_swarm`, and what was sent and asked, oldest first.
pub record NetworkBackend : Type 0 where
  pub peers : AddressBook
  pub protocols : Protocols
  pub bootstrap_complete : Bool
  pub queries : Assoc QueryId QueryChannel
  pub subscriptions : Assoc String (List Channel)
  pub replies : List (Channel × Reply)
  pub gossip : List (Channel × GossipEvent)
  pub requests : List Request

pub record NetworkConfig : Type 0 where
  pub enable_loopback : Bool
  pub port_reuse : Bool
  pub keep_alive : Bool
  pub protocols : Protocols

abbrev pub new_protocols : NetworkConfig → PeerId → NetworkBackend
new_protocols config peer_id = record {
  peers = AddressBook.new peer_id config.port_reuse config.enable_loopback config.keep_alive;
  protocols = config.protocols;
  bootstrap_complete = false;
  queries = [];
  subscriptions = [];
  replies = [];
  gossip = [];
  requests = [];
}

-- `NetworkBackendBehaviour::new`: what opening mDNS and gossipsub answers decides, where they are
-- on.
abbrev pub failure_of : Bool → Option String → Option String
failure_of true e = e
failure_of false e = none

abbrev pub or_failed : Option String → Result NetworkBackend → Result NetworkBackend
or_failed none r = r
or_failed (some e) r = err (behaviour_failed e)

unfoldable pub new :
    NetworkConfig → PeerId → (mdns_fails gossipsub_fails : Option String) → Result NetworkBackend
new config peer_id mdns_fails gossipsub_fails =
    or_failed (failure_of config.protocols.mdns mdns_fails) (
      or_failed (failure_of config.protocols.gossipsub gossipsub_fails)
        (ok (new_protocols config peer_id)))

abbrev pub ask : Request → NetworkBackend → NetworkBackend
ask r s = record s { requests = s.requests ++ r ∷ [] }

abbrev pub send : Channel → Reply → NetworkBackend → NetworkBackend
send tx r s = record s { replies = s.replies ++ (tx, r) ∷ [] }

abbrev pub on_peers : (AddressBook → AddressBook) → NetworkBackend → NetworkBackend
on_peers f s = record s { peers = f s.peers }

-- `none` is a panic.
abbrev pub with_peers : Option AddressBook → NetworkBackend → Option NetworkBackend
with_peers none s = none
with_peers (some b) s = some (record s { peers = b })

pub data MdnsEvent : Type 0 where
  discovered expired : List (PeerId × Multiaddr) → MdnsEvent

pub data PingResult : Type 0 where
  ping : ℕ → PingResult
  pong timeout unsupported : PingResult
  other : String → PingResult

pub data IdentifyEvent : Type 0 where
  received : PeerId → IdentifyInfo → IdentifyEvent
  sent pushed error : PeerId → IdentifyEvent

unfoldable pub dial : PeerId → NetworkBackend → NetworkBackend
dial peer s = on_peers (AddressBook.dial peer) s

unfoldable pub swarm_events : Sender → NetworkBackend → NetworkBackend
swarm_events tx s = on_peers (AddressBook.swarm_events tx) s

module _ (env : Env) where
  unfoldable pub add_address : PeerId → Multiaddr → AddressSource → NetworkBackend → NetworkBackend
  add_address peer addr source s =
      on_peers (AddressBook.add_address env peer addr source)
        (if s.protocols.kad then ask (kad_add_address peer addr) s else s)

  unfoldable pub remove_address : PeerId → Multiaddr → NetworkBackend → NetworkBackend
  remove_address peer addr s =
      let removed = on_peers (AddressBook.remove_address env peer addr) s in
      if s.protocols.kad then ask (kad_remove_address peer addr) removed else removed

  unfoldable pub prune_peers : ℕ → NetworkBackend → NetworkBackend
  prune_peers min_age s = on_peers (AddressBook.prune_peers env min_age) s

  unfoldable pub dial_address : PeerId → Multiaddr → NetworkBackend → NetworkBackend
  dial_address peer addr s = on_peers (AddressBook.dial_address env peer addr) s

  unfoldable pub connection_closed :
      PeerId → ConnectedPoint → ℕ → Option CloseCause → NetworkBackend → NetworkBackend
  connection_closed peer point n cause s =
      on_peers (AddressBook.connection_closed env peer point n cause) s

  unfoldable pub add_discovered : List (PeerId × Multiaddr) → NetworkBackend → NetworkBackend
  unfolding add_address
  add_discovered [] s = s
  add_discovered ((peer, addr) ∷ rest) s =
      add_discovered rest (add_address peer addr AddressSource.mdns s)

  unfoldable pub inject_mdns_event : MdnsEvent → NetworkBackend → NetworkBackend
  inject_mdns_event (discovered list) s = add_discovered list s
  inject_mdns_event (expired list) s = s

  unfoldable pub inject_ping_event : PeerId → PingResult → NetworkBackend → Option NetworkBackend
  inject_ping_event peer (ping rtt) s =
      with_peers (AddressBook.set_rtt env peer (some rtt) s.peers) s
  inject_ping_event peer pong s = some s
  inject_ping_event peer timeout s = with_peers (AddressBook.set_rtt env peer none s.peers) s
  inject_ping_event peer (other e) s = with_peers (AddressBook.set_rtt env peer none s.peers) s
  inject_ping_event peer unsupported s = some s

  unfoldable pub inject_id_event : IdentifyEvent → NetworkBackend → NetworkBackend
  inject_id_event (received peer info) s = on_peers (Identify.set_info env peer info) s
  inject_id_event _ s = s
