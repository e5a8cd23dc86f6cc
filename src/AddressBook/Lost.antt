-- ===== src/AddressBook/Lost.antt =====
-- `inject_dial_failure` of src/net/peers.rs and the invariant of Keys.
use mathlib.Core.Path.{subst}
use ipfs_embed.Common.{
  ℕ, suc, ◌≡◌, refl, sym, Bool, true, false, ◌&&◌, Option, none, some, List, [], ◌∷◌, nat_eq, arith,
  if◌then◌else◌, Bool-cases, Option-cases, inl, inr, ltb, or_else, is_empty,
}
use ipfs_embed.Common.Assoc.{get, insert, remove}
use ipfs_embed.Multiaddr.{PeerId, Multiaddr, multiaddr_eq, normalize_addr, without_peer_id}
use ipfs_embed.PeerInfo.{PeerInfo, push_failure}
use ipfs_embed.Dialing.{
  Dial, TransportError, IntoAddressHandler, any_sim_open, handler_peer_id, DialError, DialErrorKind,
  transport, banned, failure_dial, failure_transport, is_wrong_peer,
}
use ipfs_embed.Events.{Env, Event}
use ipfs_embed.AddressBook.{AddressBook, set_peer, notify}
use ipfs_embed.AddressBook.Failing.{
  failed_own, failed_addresses, notify_failures, redials, defer, defer_all, redial_delay,
  addresses_failed, other_dial_failed, known_dial_failed, peer_dial_failed, inject_dial_failure,
  is_probe_result,
}
use ipfs_embed.AddressBook.Keys.{
  IsValid, InfoIsValid, PeersAreValid, get-IsValid, insert-AreValid, forget-IsValid,
  push_failure-IsValid,
}

pub drop_if-IsValid :
    (c : Bool) (a : Multiaddr) (info : PeerInfo)
    → InfoIsValid info
    → InfoIsValid (if c then record info { addresses = remove a info.addresses } else info)
drop_if-IsValid true a info v = forget-IsValid a info v
drop_if-IsValid false a info v = v

module _ (env : Env) where
  module _ (peer : PeerId) where
    pub failed_own-IsValid :
        (a : Multiaddr) (error : DialError) (info : PeerInfo)
        → InfoIsValid info
        → InfoIsValid (failed_own env peer a error info)
    unfolding failed_own
    failed_own-IsValid a error info v =
        let f = failure_dial env.show_addr env.now (without_peer_id a) error in
        let k = error.kind in
        drop_if-IsValid (is_wrong_peer k) a (push_failure a f (is_probe_result k) info)
          (push_failure-IsValid a f (is_probe_result k) info v)

    pub failed_addresses-IsValid :
        (v : List (Multiaddr × TransportError)) (info : PeerInfo)
        → InfoIsValid info
        → InfoIsValid (failed_addresses env peer v info)
    unfolding failed_addresses
    failed_addresses-IsValid [] info h = h
    failed_addresses-IsValid ((a, error) ∷ v) info h =
        let target = normalize_addr env.codec a peer in
        let f = failure_transport env.now (without_peer_id a) error in
        failed_addresses-IsValid v (push_failure target f true info)
          (push_failure-IsValid target f true info h)

    pub peers-notify_failures :
        (v : List (Multiaddr × TransportError)) (b : AddressBook)
        → (notify_failures env peer v b).peers ≡ b.peers
    unfolding notify_failures
    peers-notify_failures [] b = refl
    peers-notify_failures ((a, e) ∷ v) b =
        peers-notify_failures v (notify env (Event.dial_failure peer a e.debug) b)

    pub peers-defer_all :
        (i : ℕ) (ds : List Dial) (b : AddressBook) → (defer_all env peer i ds b).peers ≡ b.peers
    unfolding defer_all
    peers-defer_all i [] b = refl
    peers-defer_all i (d ∷ ds) b =
        peers-defer_all (suc i) ds (defer (redial_delay (env.random i)) d b)

    pub peers-addresses_failed :
        (v : List (Multiaddr × TransportError)) (info : PeerInfo) (b : AddressBook)
        → (addresses_failed env peer v info b).peers
          ≡ insert peer (failed_addresses env peer v info) b.peers
    unfolding addresses_failed
    peers-addresses_failed v info b =
        let failed = set_peer peer (failed_addresses env peer v info) b in
        let told = notify_failures env peer v failed in
        let again = redials env peer b.keep_alive v in
        elim (Bool-cases (is_empty again)) [
          | inl t ↦
              rw (t, if◌then◌else◌)
                (ground (
                  arith,
                  peers-notify_failures v failed,
                  peers-defer_all 0 again (notify env (Event.unreachable peer) told),
                ))
          | inr f ↦
              rw (f, if◌then◌else◌)
                (ground (arith, peers-notify_failures v failed, peers-defer_all 0 again told))
        ]

    pub other-IsValid :
        (k : DialErrorKind) (info : PeerInfo) (b : AddressBook)
        → InfoIsValid info
        → IsValid b
        → IsValid (other_dial_failed env peer k info b)
    unfolding other_dial_failed
    other-IsValid (transport v) info b h w =
        subst PeersAreValid (sym (peers-addresses_failed v info b)) (
          insert-AreValid peer (failed_addresses env peer v info) b.peers w
            (failed_addresses-IsValid v info h))
    other-IsValid banned info b h w = w
    other-IsValid _ info b h w = w

    pub known-IsValid :
        (o : Option (Multiaddr × ℕ)) (k : Bool) (error : DialError) (info : PeerInfo)
        (b : AddressBook)
        → InfoIsValid info
        → IsValid b
        → IsValid (known_dial_failed env peer o k error info b)
    unfolding known_dial_failed
    known-IsValid none k error info b h w = other-IsValid error.kind info b h w
    known-IsValid (some (a, retries)) k error info b h w =
        let known =
          insert-AreValid peer (failed_own env peer a error info) b.peers w
            (failed_own-IsValid a error info h) in
        elim (Bool-cases (any_sim_open error.kind && ltb 0 retries)) [
          | inl t ↦ rw (t, if◌then◌else◌) known
          | inr f ↦ rw (f, if◌then◌else◌) known
        ]

  pub failure-IsValid :
      (p : Option PeerId) (h : IntoAddressHandler) (error : DialError) (b : AddressBook)
      → IsValid b
      → IsValid (inject_dial_failure env p h error b)
  unfolding inject_dial_failure
  failure-IsValid p h error b v = elim (Option-cases (or_else (handler_peer_id env.codec h) p)) [
    | inl e ↦ rw (e, inject_dial_failure) v
    | inr (peer, e) ↦ elim (Option-cases (get peer b.peers)) [
      | inl k ↦ rw (e, inject_dial_failure) (rw (k, peer_dial_failed) v)
      | inr (info, k) ↦
          rw (e, inject_dial_failure)
            (rw (k, peer_dial_failed)
              (known-IsValid peer h.own_dial h.keep_alive error info b
                (get-IsValid peer info b.peers v k) v))
    ]
  ]
