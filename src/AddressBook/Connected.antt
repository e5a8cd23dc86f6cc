-- ===== src/AddressBook/Connected.antt =====
-- The connections of the peers in src/net/peers.rs, and `is_connected` of src/net/mod.rs.
use ipfs_embed.Common.{
  ℕ, ◌≡◌, refl, Bool, true, false, not, ◌&&◌, ◌||◌, Option, none, some, [], ◌∷◌, arith,
  if◌then◌else◌, ◌==◌, nat_eq, is_empty,
}
use ipfs_embed.Common.Assoc.{Assoc, get, insert, get-insert, get-remove, get-insert_self}
use ipfs_embed.Multiaddr.{
  PeerId, Multiaddr, multiaddr_eq, ConnectedPoint, normalize_connected_point, get_remote_address,
  without_peer_id, normalize_addr,
}
use ipfs_embed.PeerInfo.{
  PeerInfo, Time, Direction, direction_of, AddressSource, ingest_address, push_failure,
}
use ipfs_embed.Dialing.{failure_us, failure_them}
use ipfs_embed.Events.{Env, CloseCause}
use ipfs_embed.AddressBook.{
  AddressBook, info_of, set_peer, close_reason, add_address, add_unfiltered, connection_closed,
  notify, has_confirmed,
}
use ipfs_embed.AddressBook.Callbacks.{connect, disconnect, inject_connection_established, source_of}

abbrev pub connection : PeerId → Multiaddr → AddressBook → Option (Time × Direction)
connection peer a b = get a (info_of peer b).connections

-- `NetworkService::is_connected`
abbrev pub has_connection : Option PeerInfo → Bool
has_connection none = false
has_connection (some info) = not (is_empty info.connections)

unfoldable pub is_connected : PeerId → AddressBook → Bool
is_connected peer b = peer == b.local_peer_id || has_connection (get peer b.peers)

not-is_empty-insert :
    (a : Multiaddr) (v : Time × Direction) (m : Assoc Multiaddr (Time × Direction))
    → not (is_empty (insert a v m)) ≡ true
unfolding insert
not-is_empty-insert a v [] = refl
not-is_empty-insert a v ((k, x) ∷ m) = ground arith

connection-set_peer :
    (peer : PeerId) (info : PeerInfo) (b : AddressBook) (q : PeerId) (a : Multiaddr)
    → connection q a (set_peer peer info b)
      ≡ (if peer == q then get a info.connections else connection q a b)
connection-set_peer peer info b q a = ground (arith, get-insert peer q info b.peers)

module _ (env : Env) (peer : PeerId) where
  connection-add_unfiltered :
      (a full : Multiaddr) (source : AddressSource) (new : Bool) (b : AddressBook) (q : PeerId)
      (c : Multiaddr)
      → connection q c (add_unfiltered env peer a full source new b) ≡ connection q c b
  unfolding add_unfiltered ingest_address
  connection-add_unfiltered a full source new b q c = ground (
    arith,
    nat_eq.beq_iff peer q,
    get-insert peer q (ingest_address env.now full source (info_of peer b)).0 b.peers,
  )

  -- A sighting of an address leaves all connections as they were.
  connection-add_address :
      (a : Multiaddr) (source : AddressSource) (b : AddressBook) (q : PeerId) (c : Multiaddr)
      → connection q c (add_address env peer a source b) ≡ connection q c b
  unfolding add_address
  connection-add_address a source b q c =
      let known =
        connection-add_unfiltered (without_peer_id a) (normalize_addr env.codec a peer) source
          (not (has_confirmed (get peer b.peers))) b q c in
      ground (arith, known)

  peers-established :
      (point : ConnectedPoint) (others : ℕ) (b : AddressBook)
      → let conn = normalize_connected_point env.codec point b.local_peer_id peer in
        let b₁ = add_address env peer (get_remote_address conn) (source_of conn) b in
        (inject_connection_established env peer point others b).peers
        ≡ insert peer
            (connect (get_remote_address conn) env.now (direction_of conn) (info_of peer b₁))
            b₁.peers
  unfolding inject_connection_established notify
  peers-established point others b = ground arith

  -- A new connection makes its peer connected, and is recorded at its remote address with the peer
  -- id, the time and the direction; all other connections of all peers stay as they were.
  pub connection-established :
      (point : ConnectedPoint) (others : ℕ) (b : AddressBook)
      → let conn = normalize_connected_point env.codec point b.local_peer_id peer in
        let b' = inject_connection_established env peer point others b in
        (is_connected peer b' ≡ true)
        × ((q : PeerId) (a : Multiaddr)
            → connection q a b' ≡ (
                if peer == q && get_remote_address conn == a
                then some (env.now, direction_of conn)
                else connection q a b))
  unfolding is_connected
  connection-established point others b =
      let conn = normalize_connected_point env.codec point b.local_peer_id peer in
      let addr = get_remote_address conn in
      let b₁ = add_address env peer addr (source_of conn) b in
      let info = connect addr env.now (direction_of conn) (info_of peer b₁) in
      let same = peers-established point others b in
      let full =
        not-is_empty-insert addr (env.now, direction_of conn) (info_of peer b₁).connections in
      (
        rw same (rw (get-insert_self peer info b₁.peers) (ground (arith, full))),
        λ q a. rw same (
            ground (
              arith,
              nat_eq.beq_iff peer q,
              connection-set_peer peer info b₁ q a,
              get-insert addr a (env.now, direction_of conn) (info_of peer b₁).connections,
              connection-add_address addr (source_of conn) b q a,
              connection-add_address addr (source_of conn) b peer a,
            )),
      )

  peers-closed :
      (point : ConnectedPoint) (left : ℕ) (cause : Option CloseCause) (b : AddressBook)
      → let conn = normalize_connected_point env.codec point b.local_peer_id peer in
        let addr = get_remote_address conn in
        let failure =
          (if (close_reason cause).1 then failure_them else failure_us) env.now
            (without_peer_id addr)
            (close_reason cause).0
            (env.debug_cause cause) in
        (connection_closed env peer point left cause b).peers
        ≡ insert peer (push_failure addr failure false (disconnect addr (info_of peer b))) b.peers
  unfolding connection_closed notify
  peers-closed point left cause b = ground arith

  -- A closed connection is removed from the record of its peer; all other connections of all peers
  -- stay as they were.
  pub connection-closed :
      (point : ConnectedPoint) (left : ℕ) (cause : Option CloseCause) (b : AddressBook) (q : PeerId)
      (a : Multiaddr)
      → let conn = normalize_connected_point env.codec point b.local_peer_id peer in
        connection q a (connection_closed env peer point left cause b)
        ≡ (if peer == q && get_remote_address conn == a then none else connection q a b)
  unfolding push_failure
  connection-closed point left cause b q a =
      let conn = normalize_connected_point env.codec point b.local_peer_id peer in
      let addr = get_remote_address conn in
      let failure =
        (if (close_reason cause).1 then failure_them else failure_us) env.now (without_peer_id addr)
          (close_reason cause).0 (env.debug_cause cause) in
      let info = push_failure addr failure false (disconnect addr (info_of peer b)) in
      rw (peers-closed point left cause b) (
        ground (
          arith,
          nat_eq.beq_iff peer q,
          connection-set_peer peer info b q a,
          get-remove addr a (info_of peer b).connections,
        ))
