-- ===== src/AddressBook/Kept.antt =====
-- The calls of src/net/peers.rs, its callbacks but for failed dials, and the invariant of Keys.
use ipfs_embed.Common.{
  ℕ, Bool, false, not, Option, List, [], ◌∷◌, All, nat_eq, arith, if◌then◌else◌, Option-cases, inl,
  inr,
}
use ipfs_embed.Common.Assoc.{get, remove, All-insert, All-filterb}
use ipfs_embed.Multiaddr.{
  PeerId, Multiaddr, multiaddr_eq, normalize_addr, without_peer_id, ConnectedPoint,
  normalize_connected_point, get_remote_address,
}
use ipfs_embed.Multiaddr.Laws.{normalize-ends_with_peer, remote-normalize_connected_point}
use ipfs_embed.PeerInfo.{
  PeerInfo, AddressSource, Time, Direction, direction_of, ingest_address, push_failure,
  is_to_translate,
}
use ipfs_embed.Dialing.{failure_us, failure_them}
use ipfs_embed.Events.{Env, Event, CloseCause}
use ipfs_embed.AddressBook.{
  AddressBook, stale_peers, info_of, new, notify, dial_address, add_address, remove_address,
  remove_peers, prune_peers, connection_closed, close_reason,
}
use ipfs_embed.AddressBook.Identify.{
  IdentifyInfo, identified, drop_translated, validate, validate_all, set_info,
}
use ipfs_embed.AddressBook.Callbacks.{
  source_of, connect, disconnect, inject_connection_established, inject_address_change,
}
use ipfs_embed.AddressBook.Keys.{
  IsValid, Named, InfoIsValid, info_of-IsValid, get-IsValid, insert-AreValid, remove-AreValid,
  ingest-IsValid, forget-IsValid, disconnect-IsValid, push_failure-IsValid,
}
use ipfs_embed.AddressBook.Candidates.{HasPeer, candidates-HasPeer}

pub connect-IsValid :
    (a : Multiaddr) (now : Time) (d : Direction) (info : PeerInfo)
    → InfoIsValid info
    → HasPeer a
    → InfoIsValid (connect a now d info)
connect-IsValid a now d info v h = record {
  few_failures = v.few_failures;
  addresses_named = v.addresses_named;
  connections_named = All-insert Named a (now, d) info.connections v.connections_named h;
}

module _ (env : Env) where
  pub remote-HasPeer :
      (cp : ConnectedPoint) (local remote : PeerId)
      → HasPeer (get_remote_address (normalize_connected_point env.codec cp local remote))
  remote-HasPeer cp local remote =
      rw (remote-normalize_connected_point env.codec cp local remote)
        (normalize-ends_with_peer env.codec (get_remote_address cp) remote)

  pub dial_address-IsValid :
      (p : PeerId) (a : Multiaddr) (b : AddressBook) → IsValid b → IsValid (dial_address env p a b)
  unfolding dial_address
  dial_address-IsValid p a b v =
      let known = insert-AreValid p (info_of p b) b.peers v (info_of-IsValid p b v) in
      ground (arith, known)

  pub add_address-IsValid :
      (p : PeerId) (a : Multiaddr) (s : AddressSource) (b : AddressBook)
      → IsValid b
      → IsValid (add_address env p a s b)
  unfolding add_address
  add_address-IsValid p a s b v =
      let full = normalize_addr env.codec a p in
      let known = insert-AreValid p (ingest_address env.now full s (info_of p b)).0 b.peers v (
        ingest-IsValid env.now full s (info_of p b) (info_of-IsValid p b v)
          (normalize-ends_with_peer env.codec a p)) in
      ground (arith, known)

  pub remove_address-IsValid :
      (p : PeerId) (a : Multiaddr) (b : AddressBook)
      → IsValid b
      → IsValid (remove_address env p a b)
  unfolding remove_address
  remove_address-IsValid p a b v = elim (Option-cases (get p b.peers)) [
    | inl e ↦ rw (e, remove_address) v
    | inr (info, e) ↦
        rw (e, remove_address)
          (insert-AreValid p _ b.peers v
            (forget-IsValid (normalize_addr env.codec a p) info (get-IsValid p info b.peers v e)))
  ]

  pub remove_peers-IsValid :
      (ps : List PeerId) (b : AddressBook) → IsValid b → IsValid (remove_peers env ps b)
  unfolding remove_peers
  remove_peers-IsValid [] b v = v
  remove_peers-IsValid (p ∷ ps) b v =
      remove_peers-IsValid ps
        (notify env (Event.new_info p) (record b { peers = remove p b.peers }))
        (remove-AreValid p b.peers v)

  pub prune-IsValid : (n : ℕ) (b : AddressBook) → IsValid b → IsValid (prune_peers env n b)
  unfolding prune_peers
  prune-IsValid n b v = remove_peers-IsValid (stale_peers env.now n b) b v

  pub closed-IsValid :
      (p : PeerId) (cp : ConnectedPoint) (n : ℕ) (error : Option CloseCause) (b : AddressBook)
      → IsValid b
      → IsValid (connection_closed env p cp n error b)
  unfolding connection_closed
  closed-IsValid p cp n error b v =
      let addr = get_remote_address (normalize_connected_point env.codec cp b.local_peer_id p) in
      let left = disconnect addr (info_of p b) in
      let failure =
        (if (close_reason error).1 then failure_them else failure_us) env.now (without_peer_id addr)
          (close_reason error).0 (env.debug_cause error) in
      let known = insert-AreValid p (push_failure addr failure false left) b.peers v (
        push_failure-IsValid addr failure false left
          (disconnect-IsValid addr (info_of p b) (info_of-IsValid p b v))) in
      ground (arith, known)

  pub validate-IsValid :
      (p : PeerId) (reuse : Bool) (own : List Multiaddr) (a : Multiaddr) (info : PeerInfo)
      → InfoIsValid info
      → HasPeer a
      → InfoIsValid (validate env p reuse own a info).0
  unfolding validate
  validate-IsValid p reuse own a info v h =
      let once = ingest-IsValid env.now a AddressSource.listen info v h in
      let twice =
        ingest-IsValid env.now a AddressSource.candidate
          (ingest_address env.now a AddressSource.listen info).0 once h in
      ground (arith, once, twice)

  pub validate_all-IsValid :
      (p : PeerId) (reuse : Bool) (own l : List Multiaddr) (info : PeerInfo)
      → InfoIsValid info
      → All HasPeer l
      → InfoIsValid (validate_all env p reuse own l info).0
  unfolding validate_all
  validate_all-IsValid p reuse own [] info v h = v
  validate_all-IsValid p reuse own (a ∷ l) info v h =
      validate_all-IsValid p reuse own l (validate env p reuse own a info).0
        (validate-IsValid p reuse own a info v h.0) h.1

  pub drop_translated-IsValid :
      (info : PeerInfo) → InfoIsValid info → InfoIsValid (drop_translated info)
  unfolding drop_translated
  drop_translated-IsValid info v = record {
    few_failures = v.few_failures;
    addresses_named =
        All-filterb Named (λ e. not (is_to_translate e.1.0)) info.addresses v.addresses_named;
    connections_named = v.connections_named;
  }

  pub identified-IsValid :
      (i : IdentifyInfo) (info : PeerInfo) → InfoIsValid info → InfoIsValid (identified i info)
  unfolding identified
  identified-IsValid i info v = record {
    few_failures = v.few_failures;
    addresses_named = v.addresses_named;
    connections_named = v.connections_named;
  }

  pub set_info-IsValid :
      (p : PeerId) (i : IdentifyInfo) (b : AddressBook) → IsValid b → IsValid (set_info env p i b)
  unfolding set_info
  set_info-IsValid p i b v = elim (Option-cases (get p b.peers)) [
    | inl e ↦ rw (e, set_info) v
    | inr (info, e) ↦
        let known = identified-IsValid i info (get-IsValid p info b.peers v e) in
        rw (e, set_info)
          (insert-AreValid p _ b.peers v (
            validate_all-IsValid p b.port_reuse b.listeners _ _
              (drop_translated-IsValid (identified i info) known)
              (candidates-HasPeer env.codec p b.enable_loopback (identified i info) known)))
  ]

  pub established-IsValid :
      (p : PeerId) (cp : ConnectedPoint) (n : ℕ) (b : AddressBook)
      → IsValid b
      → IsValid (inject_connection_established env p cp n b)
  unfolding inject_connection_established
  established-IsValid p cp n b v =
      let conn = normalize_connected_point env.codec cp b.local_peer_id p in
      let addr = get_remote_address conn in
      let b₁ = add_address env p addr (source_of conn) b in
      let v₁ = add_address-IsValid p addr (source_of conn) b v in
      let known =
        insert-AreValid p (connect addr env.now (direction_of conn) (info_of p b₁)) b₁.peers v₁ (
          connect-IsValid addr env.now (direction_of conn) (info_of p b₁) (info_of-IsValid p b₁ v₁)
            (remote-HasPeer cp b.local_peer_id p)) in
      ground (arith, known)

  pub change-IsValid :
      (p : PeerId) (old new : ConnectedPoint) (b : AddressBook)
      → IsValid b
      → IsValid (inject_address_change env p old new b)
  unfolding inject_address_change
  change-IsValid p old new b v =
      let before = get_remote_address (normalize_connected_point env.codec old b.local_peer_id p) in
      let conn = normalize_connected_point env.codec new b.local_peer_id p in
      let addr = get_remote_address conn in
      let b₁ = add_address env p addr (source_of conn) b in
      let v₁ = add_address-IsValid p addr (source_of conn) b v in
      let entry = disconnect before (info_of p b₁) in
      insert-AreValid p (connect addr env.now (direction_of conn) entry) b₁.peers v₁ (
        connect-IsValid addr env.now (direction_of conn) entry
          (disconnect-IsValid before (info_of p b₁) (info_of-IsValid p b₁ v₁))
          (remote-HasPeer new b.local_peer_id p))
