-- ===== src/AddressBook.antt =====
-- `AddressBook` of src/net/peers.rs: the state, and the calls of the behaviour and the swarm loop
-- but for `set_info` (Identify) and the `inject_` callbacks (Callbacks).
-- The shared variables `listeners`, `peers` and `external` are fields; every handler takes its lock
-- for the whole of an update.
pub mod Identify
pub mod Callbacks
pub mod Failing
pub mod Notify
pub mod Adding
pub mod Pruning
pub mod Steps
pub mod Keys
pub mod Candidates
pub mod Validated
pub mod Kept
pub mod Lost
pub mod Invariant
pub mod Connected
pub mod Gauges
pub mod Redial
pub mod Queue
use ipfs_embed.Common.{
  ℕ, ◌+◌, ◌-◌, String, ◌<>◌, Bool, true, false, not, ◌&&◌, ◌||◌, Option, none, some, List, [], ◌∷◌,
  ◌++◌, map, filterb, any, is_empty, is_none, is_some, unwrap_or, ltb, if◌then◌else◌, ◌==◌, nat_eq,
  head?, ◌>>=◌, eqb,
}
use ipfs_embed.Common.Assoc.{Assoc, get, insert, remove, contains, contains_key}
use ipfs_embed.Multiaddr.{
  PeerId, Multiaddr, multiaddr_eq, normalize_addr, without_peer_id, is_loopback, ConnectedPoint,
  normalize_connected_point, get_remote_address,
}
use ipfs_embed.PeerInfo.{
  Time, AddressSource, PeerInfo, default_info, is_confirmed, is_to_probe, confirmed_addresses,
  ingest_address, push_failure, ConnectionFailure,
}
use ipfs_embed.PeerInfo
use ipfs_embed.Dialing.{
  IntoAddressHandler, PeerCondition, default_condition, always, Dial, failure_us, failure_them,
}
use ipfs_embed.Events.{
  Env, Event, Sender, CloseCause, kademlia, ping, identify, bitswap, gossipsub, broadcast,
  connection_io, keep_alive_timeout,
}

-- The gauges that handlers change, statics of the process: how often this one book has moved each up
-- and down. What a gauge reads is the sum over the books of the process.
pub record Metrics : Type 0 where
  pub listeners_up : ℕ
  pub listeners_down : ℕ
  pub listen_addrs_up : ℕ
  pub listen_addrs_down : ℕ
  pub external_addrs_up : ℕ
  pub external_addrs_down : ℕ
  pub listener_errors : ℕ

-- `sent` holds what the subscribers were sent, oldest first; a deferred dial has its delay.
pub record AddressBook : Type 0 where
  pub port_reuse : Bool
  pub enable_loopback : Bool
  pub keep_alive : Bool
  pub local_peer_id : PeerId
  pub listeners : List Multiaddr
  pub peers : Assoc PeerId PeerInfo
  pub external : List Multiaddr
  pub refresh_external : Bool
  pub event_stream : List Sender
  pub actions : List Dial
  pub deferred : List (ℕ × Dial)
  pub sent : List (Sender × Event)
  pub metrics : Metrics

abbrev pub no_metrics : Metrics
no_metrics = record {
  listeners_up = 0;
  listeners_down = 0;
  listen_addrs_up = 0;
  listen_addrs_down = 0;
  external_addrs_up = 0;
  external_addrs_down = 0;
  listener_errors = 0;
}

unfoldable pub new : PeerId → Bool → Bool → Bool → AddressBook
new local_peer_id port_reuse enable_loopback keep_alive = record {
  port_reuse = port_reuse;
  enable_loopback = enable_loopback;
  keep_alive = keep_alive;
  local_peer_id = local_peer_id;
  listeners = [];
  peers = [];
  external = [];
  refresh_external = true;
  event_stream = [];
  actions = [];
  deferred = [];
  sent = [];
  metrics = no_metrics;
}

abbrev pub sim_open_retries : ℕ
sim_open_retries = 10

-- `DialOpts::peer_id(peer).condition(..).addresses(..)`, with a handler
abbrev pub dial_to : PeerId → PeerCondition → Multiaddr → IntoAddressHandler → Dial
dial_to peer condition address handler = record {
  peer = peer;
  condition = condition;
  addresses = some (address ∷ []);
  handler = handler;
}

abbrev pub own_handler : Multiaddr → ℕ → Bool → IntoAddressHandler
own_handler addr retries keep_alive = record {
  own_dial = some (addr, retries);
  keep_alive = keep_alive;
}

abbrev pub push_action : Dial → AddressBook → AddressBook
push_action d b = record b { actions = b.actions ++ d ∷ [] }

-- `peers.entry(peer).or_default()`
abbrev pub info_of : PeerId → AddressBook → PeerInfo
info_of peer b = unwrap_or (get peer b.peers) default_info

abbrev pub set_peer : PeerId → PeerInfo → AddressBook → AddressBook
set_peer peer info b = record b { peers = insert peer info b.peers }

abbrev pub has_confirmed : Option PeerInfo → Bool
has_confirmed none = false
has_confirmed (some info) = not (is_empty (confirmed_addresses info))

unfoldable pub swarm_events : Sender → AddressBook → AddressBook
swarm_events tx b = record b { event_stream = b.event_stream ++ tx ∷ [] }

unfoldable pub new_handler : AddressBook → IntoAddressHandler
new_handler b = record { own_dial = none; keep_alive = b.keep_alive }

unfoldable pub addresses_of_peer : PeerId → AddressBook → List Multiaddr
addresses_of_peer peer b = elim (get peer b.peers) [
  | none ↦ []
  | some info ↦ confirmed_addresses info
]

unfoldable pub dial : PeerId → AddressBook → AddressBook
unfolding new_handler
dial peer b =
    if peer == b.local_peer_id
    then b
    else push_action
        (record {
          peer = peer;
          condition = default_condition;
          addresses = none;
          handler = new_handler b;
        })
        b

-- `diff_time`: a difference below zero counts as zero.
abbrev pub diff_time : Time → Time → ℕ
diff_time former latter = latter - former

abbrev pub max_duration : ℕ → ℕ → ℕ
max_duration a b = if ltb a b then b else a

-- The reasons that keep a peer in the book.
abbrev pub recently_failed : Time → ℕ → Option ConnectionFailure → Bool
recently_failed now min_age none = false
recently_failed now min_age (some f) = ltb (diff_time f.time now) min_age

abbrev pub keeps_address : Time → ℕ → AddressSource → Time → Bool
keeps_address now min_age source time =
    is_confirmed source
    || is_to_probe source && ltb (diff_time time now) (max_duration min_age 10_000_000_000)

unfoldable pub is_kept : Time → ℕ → PeerInfo → Bool
is_kept now min_age info =
    not (is_empty info.connections)
    || (recently_failed now min_age (head? info.failures)
        || any (λ e. keeps_address now min_age e.1.0 e.1.1) info.addresses)

-- The peers that a pruning removes.
abbrev pub stale_peers : Time → ℕ → AddressBook → List PeerId
stale_peers now min_age b = map (λ e. e.0) (filterb (λ e. not (is_kept now min_age e.1)) b.peers)

-- `connection_closed`'s reason, and whether the peer closed the connection.
abbrev pub close_reason : Option CloseCause → String × Bool
close_reason none = ("we closed", false)
close_reason (some (kademlia e)) = ("Kademlia I/O error: " <> e, false)
close_reason (some (ping e)) = ("Ping failure: " <> e, false)
close_reason (some (identify e)) = ("Identify I/O error: " <> e, false)
close_reason (some (bitswap e)) = ("Bitswap error: " <> e, false)
close_reason (some (gossipsub e)) = ("Gossipsub error: " <> e, false)
close_reason (some (broadcast e)) = ("Broadcast error: " <> e, false)
close_reason (some (connection_io e)) = ("connection I/O error: " <> e, true)
close_reason (some keep_alive_timeout) = ("we closed due to missing keepalive", false)

module _ (env : Env) where
  open env use {codec, now, alive}

  -- Subscribers whose receiver is gone are dropped.
  unfoldable pub notify : Event → AddressBook → AddressBook
  notify event b =
      let live = filterb alive b.event_stream in
      record b { event_stream = live; sent = b.sent ++ map (λ tx. (tx, event)) live }

  unfoldable pub dial_address : PeerId → Multiaddr → AddressBook → AddressBook
  dial_address peer addr b =
      if peer == b.local_peer_id
      then b
      else let target = normalize_addr codec addr peer in
        let known = set_peer peer (info_of peer b) b in
        if contains_key target (info_of peer b).connections
        then known
        else push_action
            (dial_to peer default_condition addr
              (own_handler target (sim_open_retries + 1) b.keep_alive))
            known

  -- The part of `add_address` after its early returns; `address` has no peer id.
  unfoldable pub add_unfiltered :
      PeerId → Multiaddr → Multiaddr → AddressSource → Bool → AddressBook → AddressBook
  unfolding notify
  add_unfiltered peer address addr_full source discovered b =
      let r = ingest_address now addr_full source (info_of peer b) in
      let result = r.1 && not (contains_key addr_full r.0.connections) in
      let b₁ = set_peer peer r.0 b in
      let b₂ =
        if result
        then push_action
            (dial_to peer always address (own_handler addr_full (sim_open_retries + 1) false)) b₁
        else b₁ in
      let b₃ =
        if discovered && is_confirmed source then notify (Event.discovered peer) b₂ else b₂ in
      notify (Event.new_info peer) b₃

  unfoldable pub add_address : PeerId → Multiaddr → AddressSource → AddressBook → AddressBook
  unfolding add_unfiltered
  add_address peer address source b =
      if peer == b.local_peer_id
      then b
      else if not b.enable_loopback && is_loopback address
      then b
      else if contains (without_peer_id address) b.listeners
      then b
      else add_unfiltered peer (without_peer_id address) (normalize_addr codec address peer) source
          (not (has_confirmed (get peer b.peers))) b

  unfoldable pub remove_address : PeerId → Multiaddr → AddressBook → AddressBook
  remove_address peer address b = elim (get peer b.peers) [
    | none ↦ b
    | some info ↦
        set_peer peer
          (record info { addresses = remove (normalize_addr codec address peer) info.addresses }) b
  ]

  -- The loop that removes the peers found, one after another.
  unfoldable pub remove_peers : List PeerId → AddressBook → AddressBook
  unfolding notify
  remove_peers [] b = b
  remove_peers (peer ∷ rest) b =
      remove_peers rest (notify (Event.new_info peer) (record b { peers = remove peer b.peers }))

  unfoldable pub prune_peers : ℕ → AddressBook → AddressBook
  unfolding remove_peers
  prune_peers min_age b = remove_peers (stale_peers now min_age b) b

  unfoldable pub connection_closed :
      PeerId → ConnectedPoint → ℕ → Option CloseCause → AddressBook → AddressBook
  unfolding notify
  connection_closed peer point num_established error b =
      let conn = normalize_connected_point codec point b.local_peer_id peer in
      let addr = get_remote_address conn in
      let entry = info_of peer b in
      let left = record entry { connections = remove addr entry.connections } in
      let failure =
        (if (close_reason error).1 then failure_them else failure_us) now (without_peer_id addr)
          (close_reason error).0 (env.debug_cause error) in
      let b₁ = set_peer peer (push_failure addr failure false left) b in
      let b₂ = notify (Event.connection_closed peer conn) b₁ in
      let b₃ = if eqb num_established 0 then notify (Event.disconnected peer) b₂ else b₂ in
      notify (Event.new_info peer) b₃

  -- `none` is the panic of an overflowing `Duration`.
  unfoldable pub set_rtt : PeerId → Option ℕ → AddressBook → Option AddressBook
  unfolding notify
  set_rtt peer rtt b = elim (get peer b.peers) [
    | none ↦ some b
    | some info ↦ do
      info' ← PeerInfo.set_rtt rtt info
      some (notify (Event.new_info peer) (set_peer peer info' b))
  ]
