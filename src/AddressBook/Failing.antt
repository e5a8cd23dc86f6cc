-- ===== src/AddressBook/Failing.antt =====
-- `AddressBook::inject_dial_failure` of src/net/peers.rs: failed dials, and the redials after a
-- presumed TCP simultaneous open.
use ipfs_embed.Common.{
  ℕ, suc, ◌-◌, ◌*◌, ◌/◌, Bool, true, ◌&&◌, ◌||◌, Option, none, some, List, [], ◌∷◌, ◌++◌,
  if◌then◌else◌, or_else, nat_eq, is_empty, ltb,
}
use ipfs_embed.Common.Assoc.{get, remove}
use ipfs_embed.Multiaddr.{PeerId, Multiaddr, multiaddr_eq, normalize_addr, without_peer_id}
use ipfs_embed.PeerInfo.{PeerInfo, push_failure}
use ipfs_embed.Dialing.{
  Dial, IntoAddressHandler, default_condition, handler_peer_id, TransportError, is_sim_open,
  DialError, DialErrorKind, transport, dial_peer_condition_false, banned, local_peer_id,
  is_transport, is_wrong_peer, is_connection_io, any_sim_open, failure_dial, failure_transport,
}
use ipfs_embed.Events.{Env, Event}
use ipfs_embed.AddressBook.{AddressBook, dial_to, own_handler, set_peer, notify, sim_open_retries}

-- `Duration::from_secs(1) * rand::random::<u32>() / u32::MAX`
abbrev pub redial_delay : ℕ → ℕ
redial_delay r = 1_000_000_000 * r / 4_294_967_295

abbrev pub defer : ℕ → Dial → AddressBook → AddressBook
defer delay d b = record b { deferred = b.deferred ++ (delay, d) ∷ [] }

abbrev pub is_probe_result : DialErrorKind → Bool
is_probe_result k = is_transport k || (is_wrong_peer k || is_connection_io k)

module _ (env : Env) (peer : PeerId) where
  open env use {codec, now, random, show_addr}

  -- The record after the failure of a validation dial.
  unfoldable pub failed_own : Multiaddr → DialError → PeerInfo → PeerInfo
  failed_own addr error info =
      let pushed =
        push_failure addr (failure_dial show_addr now (without_peer_id addr) error)
          (is_probe_result error.kind) info in
      if is_wrong_peer error.kind
      then record pushed { addresses = remove addr pushed.addresses }
      else pushed

  -- The failure of a dial of our own.
  unfoldable pub own_dial_failed :
      Multiaddr → ℕ → Bool → DialError → PeerInfo → AddressBook → AddressBook
  unfolding notify failed_own
  own_dial_failed addr retries keep_alive error info b =
      let b₁ = set_peer peer (failed_own addr error info) b in
      let redial =
        dial_to peer default_condition addr (own_handler addr (retries - 1) keep_alive) in
      let b₂ =
        if any_sim_open error.kind && ltb 0 retries
        then defer (redial_delay (random 0)) redial b₁
        else b₁ in
      notify env (Event.new_info peer) (notify env (Event.dial_failure peer addr error.shown) b₂)

  -- The loop over the addresses of a dial that was not our own.
  unfoldable pub failed_addresses : List (Multiaddr × TransportError) → PeerInfo → PeerInfo
  failed_addresses [] info = info
  failed_addresses ((addr, error) ∷ v) info = failed_addresses v (
      push_failure (normalize_addr codec addr peer)
        (failure_transport now (without_peer_id addr) error) true info)

  unfoldable pub notify_failures : List (Multiaddr × TransportError) → AddressBook → AddressBook
  unfolding notify
  notify_failures [] b = b
  notify_failures ((addr, error) ∷ v) b =
      notify_failures v (notify env (Event.dial_failure peer addr error.debug) b)

  -- The redials of the addresses that failed by a simultaneous open.
  unfoldable pub redials : Bool → List (Multiaddr × TransportError) → List Dial
  redials keep_alive [] = []
  redials keep_alive ((addr, error) ∷ v) =
      let rest = redials keep_alive v in
      if is_sim_open error
      then dial_to peer default_condition addr (own_handler addr sim_open_retries keep_alive) ∷ rest
      else rest

  unfoldable pub defer_all : ℕ → List Dial → AddressBook → AddressBook
  defer_all i [] b = b
  defer_all i (d ∷ ds) b = defer_all (suc i) ds (defer (redial_delay (random i)) d b)

  unfoldable pub addresses_failed :
      List (Multiaddr × TransportError) → PeerInfo → AddressBook → AddressBook
  unfolding notify failed_addresses notify_failures redials defer_all
  addresses_failed v info b =
      let b₁ = notify_failures v (set_peer peer (failed_addresses v info) b) in
      let again = redials b.keep_alive v in
      let b₂ = if is_empty again then notify env (Event.unreachable peer) b₁ else b₁ in
      notify env (Event.new_info peer) (defer_all 0 again b₂)

  unfoldable pub other_dial_failed : DialErrorKind → PeerInfo → AddressBook → AddressBook
  unfolding notify addresses_failed
  other_dial_failed (transport v) info b = addresses_failed v info b
  other_dial_failed dial_peer_condition_false info b = b
  other_dial_failed banned info b = b
  other_dial_failed local_peer_id info b = b
  other_dial_failed _ info b = notify env (Event.unreachable peer) b

  unfoldable pub known_dial_failed :
      Option (Multiaddr × ℕ) → Bool → DialError → PeerInfo → AddressBook → AddressBook
  unfolding own_dial_failed other_dial_failed
  known_dial_failed (some (addr, retries)) keep_alive error info b =
      own_dial_failed addr retries keep_alive error info b
  known_dial_failed none keep_alive error info b = other_dial_failed error.kind info b

  unfoldable pub peer_dial_failed : IntoAddressHandler → DialError → AddressBook → AddressBook
  unfolding known_dial_failed
  peer_dial_failed handler error b = elim (get peer b.peers) [
    | none ↦ b
    | some info ↦ known_dial_failed handler.own_dial handler.keep_alive error info b
  ]

unfoldable pub inject_dial_failure :
    Env → Option PeerId → IntoAddressHandler → DialError → AddressBook → AddressBook
unfolding peer_dial_failed
inject_dial_failure env peer_id handler error b =
    elim (or_else (handler_peer_id env.codec handler) peer_id) [
      | none ↦ b
      | some peer ↦ peer_dial_failed env peer handler error b
    ]
