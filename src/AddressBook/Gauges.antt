-- ===== src/AddressBook/Gauges.antt =====
-- The gauge `LISTEN_ADDRS` of src/net/peers.rs.
use ipfs_embed.Common.{
  ℕ, ◌+◌, ◌≡◌, refl, sym, Bool, Option, none, some, List, [], ◌∷◌, arith, length, if◌then◌else◌,
  Bool-cases, inl, inr, Option-cases, suc, nat_eq, is_empty, ◌&&◌, ltb, or_else, All,
}
use mathlib.Core.Path.{subst}
use ipfs_embed.Common.Assoc.{get, remove, length-insert_key, length-remove_key}
use ipfs_embed.Multiaddr.{
  PeerId, Multiaddr, multiaddr_eq, ConnectedPoint, normalize_connected_point, get_remote_address,
}
use ipfs_embed.PeerInfo.{PeerInfo, AddressSource}
use ipfs_embed.Dialing.{
  Dial, TransportError, IntoAddressHandler, any_sim_open, handler_peer_id, DialError, DialErrorKind,
  transport, banned,
}
use ipfs_embed.Events.{Env, Event}
use ipfs_embed.AddressBook.{
  AddressBook, set_peer, stale_peers, new, swarm_events, notify, dial, dial_address, add_address,
  remove_address, remove_peers, prune_peers, connection_closed, set_rtt,
}
use ipfs_embed.AddressBook.Identify.{IdentifyInfo, set_info}
use ipfs_embed.AddressBook.Failing.{
  inject_dial_failure, peer_dial_failed, known_dial_failed, other_dial_failed, addresses_failed,
  notify_failures, defer, defer_all, redial_delay, redials, failed_addresses,
}
use ipfs_embed.AddressBook.Callbacks.{
  inject_connection_established, inject_address_change, inject_new_listener, inject_new_listen_addr,
  inject_expired_listen_addr, inject_listener_error, inject_listener_closed,
  inject_new_external_addr, inject_expired_external_addr, poll, poll_actions, poll_deferred,
  refreshed, source_of,
}
use ipfs_embed.AddressBook.Steps.{Call, perform, call, ping, Reachable, start, next}

abbrev IsCounted : AddressBook → Type 0
IsCounted b = b.metrics.listen_addrs_up ≡ b.metrics.listen_addrs_down + length b.listeners

-- The listeners and the gauge as they were.
abbrev Same : AddressBook → AddressBook → Type 0
Same b c = (c.metrics ≡ b.metrics) × (c.listeners ≡ b.listeners)

IsCounted-Same : (b c : AddressBook) → Same b c → IsCounted b → IsCounted c
IsCounted-Same b c s h = rw (s.0, s.1) h

poll_deferred-Same : (ready : Option ℕ) (b : AddressBook) → Same b (poll_deferred ready b).1
poll_deferred-Same none b = (refl, refl)
poll_deferred-Same (some i) b = ground arith

poll_actions-Same :
    (ready : Option ℕ) (ds : List Dial) (b : AddressBook) → Same b (poll_actions ready ds b).1
poll_actions-Same ready [] b = poll_deferred-Same ready b
poll_actions-Same ready (d ∷ ds) b = (refl, refl)

poll-Same : (x : List Multiaddr) (ready : Option ℕ) (b : AddressBook) → Same b (poll x ready b).1
unfolding poll
poll-Same x ready b =
    ground (arith, poll_actions-Same ready (refreshed x b).actions (refreshed x b))

module _ (env : Env) where
  add_address-Same :
      (peer : PeerId) (a : Multiaddr) (s : AddressSource) (b : AddressBook)
      → Same b (add_address env peer a s b)
  unfolding add_address
  add_address-Same peer a s b = ground arith

  remove_peers-Same : (ps : List PeerId) (b : AddressBook) → Same b (remove_peers env ps b)
  unfolding remove_peers
  remove_peers-Same [] b = (refl, refl)
  remove_peers-Same (p ∷ ps) b =
      remove_peers-Same ps (notify env (Event.new_info p) (record b { peers = remove p b.peers }))

  prune-Same : (n : ℕ) (b : AddressBook) → Same b (prune_peers env n b)
  unfolding prune_peers
  prune-Same n b = remove_peers-Same (stale_peers env.now n b) b

  set_info-Same :
      (peer : PeerId) (i : IdentifyInfo) (b : AddressBook) → Same b (set_info env peer i b)
  unfolding set_info
  set_info-Same peer i b = elim (Option-cases (get peer b.peers)) [
    | inl e ↦ rw (e, set_info) (refl, refl)
    | inr (info, e) ↦ rw (e, set_info) (refl, refl)
  ]

  established-Same :
      (peer : PeerId) (cp : ConnectedPoint) (n : ℕ) (b : AddressBook)
      → Same b (inject_connection_established env peer cp n b)
  unfolding inject_connection_established
  established-Same peer cp n b =
      let conn = normalize_connected_point env.codec cp b.local_peer_id peer in
      ground (arith, add_address-Same peer (get_remote_address conn) (source_of conn) b)

  change-Same :
      (peer : PeerId) (old new : ConnectedPoint) (b : AddressBook)
      → Same b (inject_address_change env peer old new b)
  unfolding inject_address_change
  change-Same peer old new b =
      let conn = normalize_connected_point env.codec new b.local_peer_id peer in
      add_address-Same peer (get_remote_address conn) (source_of conn) b

  module _ (peer : PeerId) where
    notify_failures-Same :
        (v : List (Multiaddr × TransportError)) (b : AddressBook)
        → Same b (notify_failures env peer v b)
    unfolding notify_failures
    notify_failures-Same [] b = (refl, refl)
    notify_failures-Same ((a, e) ∷ v) b =
        notify_failures-Same v (notify env (Event.dial_failure peer a e.debug) b)

    defer_all-Same : (i : ℕ) (ds : List Dial) (b : AddressBook) → Same b (defer_all env peer i ds b)
    unfolding defer_all
    defer_all-Same i [] b = (refl, refl)
    defer_all-Same i (d ∷ ds) b =
        defer_all-Same (suc i) ds (defer (redial_delay (env.random i)) d b)

    addresses_failed-Same :
        (v : List (Multiaddr × TransportError)) (info : PeerInfo) (b : AddressBook)
        → Same b (addresses_failed env peer v info b)
    unfolding addresses_failed
    addresses_failed-Same v info b =
        let failed = set_peer peer (failed_addresses env peer v info) b in
        let told = notify_failures env peer v failed in
        let again = redials env peer b.keep_alive v in
        elim (Bool-cases (is_empty again)) [
          | inl t ↦
              rw (t, if◌then◌else◌)
                (ground (
                  arith,
                  notify_failures-Same v failed,
                  defer_all-Same 0 again (notify env (Event.unreachable peer) told),
                ))
          | inr f ↦
              rw (f, if◌then◌else◌)
                (ground (arith, notify_failures-Same v failed, defer_all-Same 0 again told))
        ]

    other-Same :
        (k : DialErrorKind) (info : PeerInfo) (b : AddressBook)
        → Same b (other_dial_failed env peer k info b)
    unfolding other_dial_failed
    other-Same (transport v) info b = addresses_failed-Same v info b
    other-Same banned info b = (refl, refl)
    other-Same _ info b = (refl, refl)

    known-Same :
        (o : Option (Multiaddr × ℕ)) (k : Bool) (error : DialError) (info : PeerInfo)
        (b : AddressBook)
        → Same b (known_dial_failed env peer o k error info b)
    unfolding known_dial_failed
    known-Same none k error info b = other-Same error.kind info b
    known-Same (some (addr, retries)) k error info b =
        elim (Bool-cases (any_sim_open error.kind && ltb 0 retries)) [
          | inl t ↦ rw (t, if◌then◌else◌) (refl, refl)
          | inr f ↦ rw (f, if◌then◌else◌) (refl, refl)
        ]

  failure-Same :
      (p : Option PeerId) (h : IntoAddressHandler) (error : DialError) (b : AddressBook)
      → Same b (inject_dial_failure env p h error b)
  unfolding inject_dial_failure
  failure-Same p h error b = elim (Option-cases (or_else (handler_peer_id env.codec h) p)) [
    | inl e ↦ rw (e, inject_dial_failure) (refl, refl)
    | inr (peer, e) ↦ elim (Option-cases (get peer b.peers)) [
      | inl k ↦ rw (e, inject_dial_failure) (rw (k, peer_dial_failed) (refl, refl))
      | inr (info, k) ↦
          rw (e, inject_dial_failure)
            (rw (k, peer_dial_failed) (known-Same peer h.own_dial h.keep_alive error info b))
    ]
  ]

  perform-IsCounted : (k : Call) (b : AddressBook) → IsCounted b → IsCounted (perform env k b)
  unfolding perform
  perform-IsCounted (Call.swarm_events tx) b h = unfold swarm_events in h
  perform-IsCounted (Call.notify e) b h = unfold notify in h
  perform-IsCounted (Call.dial p) b h = unfold dial in ground arith
  perform-IsCounted (Call.dial_address p a) b h = unfold dial_address in ground arith
  perform-IsCounted (Call.remove_address p a) b h = unfold remove_address in ground arith
  perform-IsCounted (Call.add_address p a s) b h =
      IsCounted-Same b (add_address env p a s b) (add_address-Same p a s b) h
  perform-IsCounted (Call.prune_peers n) b h =
      IsCounted-Same b (prune_peers env n b) (prune-Same n b) h
  perform-IsCounted (Call.connection_closed p cp n e) b h = unfold connection_closed in ground arith
  perform-IsCounted (Call.set_info p i) b h =
      IsCounted-Same b (set_info env p i b) (set_info-Same p i b) h
  perform-IsCounted (Call.connection_established p cp n) b h =
      IsCounted-Same b (inject_connection_established env p cp n b) (established-Same p cp n b) h
  perform-IsCounted (Call.address_change p o n) b h =
      IsCounted-Same b (inject_address_change env p o n b) (change-Same p o n b) h
  perform-IsCounted (Call.dial_failure p d e) b h =
      IsCounted-Same b (inject_dial_failure env p d e b) (failure-Same p d e b) h
  perform-IsCounted (Call.new_listener id) b h = unfold inject_new_listener in h
  perform-IsCounted (Call.listener_closed id) b h = unfold inject_listener_closed in h
  perform-IsCounted (Call.new_listen_addr id a) b h =
      unfold inject_new_listen_addr in ground (arith, length-insert_key a b.listeners)
  perform-IsCounted (Call.expired_listen_addr id a) b h =
      unfold inject_expired_listen_addr in ground (arith, length-remove_key a b.listeners)
  perform-IsCounted (Call.listener_error id e) b h = unfold inject_listener_error in h
  perform-IsCounted (Call.new_external_addr a) b h = unfold inject_new_external_addr in h
  perform-IsCounted (Call.expired_external_addr a) b h = unfold inject_expired_external_addr in h
  perform-IsCounted (Call.poll x r) b h = IsCounted-Same b (poll x r b).1 (poll-Same x r b) h

  set_rtt-IsCounted :
      (p : PeerId) (rtt : Option ℕ) (b c : AddressBook)
      → set_rtt env p rtt b ≡ some c
      → IsCounted b
      → IsCounted c
  unfolding set_rtt
  set_rtt-IsCounted p rtt b c e h = ground arith

Reachable-IsCounted : (b : AddressBook) → Reachable b → IsCounted b
unfolding new
Reachable-IsCounted b (start p x y z) = refl
Reachable-IsCounted b (next {b = a} r (call env k e)) =
    subst IsCounted (sym e) (perform-IsCounted env k a (Reachable-IsCounted a r))
Reachable-IsCounted b (next {b = a} r (ping env p rtt e)) =
    set_rtt-IsCounted env p rtt a b e (Reachable-IsCounted a r)

-- What the books of a process have added to the gauge `LISTEN_ADDRS`, and taken from it, and the
-- number of the addresses that they listen on.
abbrev pub listen_addrs_up : List AddressBook → ℕ
listen_addrs_up [] = 0
listen_addrs_up (b ∷ bs) = b.metrics.listen_addrs_up + listen_addrs_up bs

abbrev pub listen_addrs_down : List AddressBook → ℕ
listen_addrs_down [] = 0
listen_addrs_down (b ∷ bs) = b.metrics.listen_addrs_down + listen_addrs_down bs

abbrev pub listening : List AddressBook → ℕ
listening [] = 0
listening (b ∷ bs) = length b.listeners + listening bs

-- Let the books of a process, one for each of its nodes, each have been reached from a new one. Then
-- the gauge `LISTEN_ADDRS`, all ups less all downs, is the number of addresses in the tables of
-- listeners of all the books together.
pub gauge-listening :
    (bs : List AddressBook)
    → All Reachable bs
    → listen_addrs_up bs ≡ listen_addrs_down bs + listening bs
gauge-listening [] h = refl
gauge-listening (b ∷ bs) h = omega (arith, Reachable-IsCounted b h.0, gauge-listening bs h.1)
