-- ===== src/AddressBook/Callbacks.antt =====
-- The callbacks of `impl NetworkBehaviour for AddressBook` of src/net/peers.rs, but for
-- `inject_dial_failure` (Failing), and its `poll`.
use ipfs_embed.Common.{
  ℕ, suc, zero, ◌+◌, String, true, false, Option, none, some, List, [], ◌∷◌, if◌then◌else◌, eqb,
}
use ipfs_embed.Common.Assoc.{insert, remove, insert_key, remove_key, contains}
use ipfs_embed.Multiaddr.{
  PeerId, Multiaddr, multiaddr_eq, normalize_addr, ConnectedPoint, normalize_connected_point,
  get_remote_address, is_dialer,
}
use ipfs_embed.PeerInfo.{AddressSource, PeerInfo, Time, Direction, direction_of}
use ipfs_embed.Dialing.{Dial}
use ipfs_embed.Events.{Env, Event, ListenerId}
use ipfs_embed.AddressBook.{AddressBook, Metrics, info_of, set_peer, notify, add_address}

abbrev pub source_of : ConnectedPoint → AddressSource
source_of conn = if is_dialer conn then AddressSource.dial else AddressSource.incoming

abbrev pub connect : Multiaddr → Time → Direction → PeerInfo → PeerInfo
connect address now direction info = record info {
  connections = insert address (now, direction) info.connections;
}

abbrev pub disconnect : Multiaddr → PeerInfo → PeerInfo
disconnect address info = record info { connections = remove address info.connections }

abbrev pub count_up : (Metrics → Metrics) → AddressBook → AddressBook
count_up f b = record b { metrics = f b.metrics }

module _ (env : Env) where
  open env use {codec, now}

  unfoldable pub inject_connection_established :
      PeerId → ConnectedPoint → ℕ → AddressBook → AddressBook
  unfolding notify
  inject_connection_established peer point other_established b =
      let conn = normalize_connected_point codec point b.local_peer_id peer in
      let address = get_remote_address conn in
      let b₁ = add_address env peer address (source_of conn) b in
      let b₂ = set_peer peer (connect address now (direction_of conn) (info_of peer b₁)) b₁ in
      let b₃ = if eqb other_established 0 then notify env (Event.connected peer) b₂ else b₂ in
      notify env (Event.connection_established peer conn) b₃

  unfoldable pub inject_address_change :
      PeerId → ConnectedPoint → ConnectedPoint → AddressBook → AddressBook
  unfolding notify
  inject_address_change peer old_point new_point b =
      let old = normalize_connected_point codec old_point b.local_peer_id peer in
      let new = normalize_connected_point codec new_point b.local_peer_id peer in
      let b₁ = add_address env peer (get_remote_address new) (source_of new) b in
      let entry = disconnect (get_remote_address old) (info_of peer b₁) in
      let b₂ = set_peer peer (connect (get_remote_address new) now (direction_of new) entry) b₁ in
      notify env (Event.address_changed peer old new) b₂

  unfoldable pub inject_new_listener : ListenerId → AddressBook → AddressBook
  unfolding notify
  inject_new_listener id b =
      notify env (Event.new_listener id)
        (count_up (λ m. record m { listeners_up = m.listeners_up + 1 }) b)

  unfoldable pub inject_new_listen_addr : ListenerId → Multiaddr → AddressBook → AddressBook
  unfolding notify
  inject_new_listen_addr id addr b =
      let b₁ = record b { listeners = insert_key addr b.listeners } in
      notify env (Event.new_listen_addr id addr) (
        if contains addr b.listeners
        then b₁
        else count_up (λ m. record m { listen_addrs_up = m.listen_addrs_up + 1 }) b₁)

  unfoldable pub inject_expired_listen_addr : ListenerId → Multiaddr → AddressBook → AddressBook
  unfolding notify
  inject_expired_listen_addr id addr b =
      let b₁ = record b { listeners = remove_key addr b.listeners } in
      notify env (Event.expired_listen_addr id addr) (
        if contains addr b.listeners
        then count_up (λ m. record m { listen_addrs_down = m.listen_addrs_down + 1 }) b₁
        else b₁)

  unfoldable pub inject_listener_error : ListenerId → String → AddressBook → AddressBook
  unfolding notify
  inject_listener_error id err b =
      notify env (Event.listener_error id err)
        (count_up (λ m. record m { listener_errors = m.listener_errors + 1 }) b)

  unfoldable pub inject_listener_closed : ListenerId → AddressBook → AddressBook
  unfolding notify
  inject_listener_closed id b =
      notify env (Event.listener_closed id)
        (count_up (λ m. record m { listeners_down = m.listeners_down + 1 }) b)

  unfoldable pub inject_new_external_addr : Multiaddr → AddressBook → AddressBook
  unfolding notify
  inject_new_external_addr addr b =
      notify env (Event.new_external_addr (normalize_addr codec addr b.local_peer_id)) (
        count_up (λ m. record m { external_addrs_up = m.external_addrs_up + 1 })
          (record b { refresh_external = true }))

  unfoldable pub inject_expired_external_addr : Multiaddr → AddressBook → AddressBook
  unfolding notify
  inject_expired_external_addr addr b =
      notify env (Event.expired_external_addr (normalize_addr codec addr b.local_peer_id)) (
        count_up (λ m. record m { external_addrs_down = m.external_addrs_down + 1 })
          (record b { refresh_external = true }))

-- The deferred dial at a position, and the others.
abbrev pub take_deferred : ℕ → List (ℕ × Dial) → Option (Dial × List (ℕ × Dial))
take_deferred i [] = none
take_deferred zero ((delay, d) ∷ rest) = some (d, rest)
take_deferred (suc i) (e ∷ rest) = elim (take_deferred i rest) [
  | none ↦ none
  | some (d, others) ↦ some (d, e ∷ others)
]

abbrev pub poll_deferred : Option ℕ → AddressBook → Option Dial × AddressBook
poll_deferred none b = (none, b)
poll_deferred (some i) b = elim (take_deferred i b.deferred) [
  | none ↦ (none, b)
  | some (d, others) ↦ (some d, record b { deferred = others })
]

abbrev pub poll_actions : Option ℕ → List Dial → AddressBook → Option Dial × AddressBook
poll_actions ready [] b = poll_deferred ready b
poll_actions ready (d ∷ rest) b = (some d, record b { actions = rest })

abbrev pub refreshed : List Multiaddr → AddressBook → AddressBook
refreshed external b =
    if b.refresh_external then record b { refresh_external = false; external = external } else b

-- `external` is what the swarm reports, `ready` the deferred dial whose delay is over, if any;
-- `none` is `Poll::Pending`.
unfoldable pub poll : List Multiaddr → Option ℕ → AddressBook → Option Dial × AddressBook
poll external ready b = let b' = refreshed external b in poll_actions ready b'.actions b'
