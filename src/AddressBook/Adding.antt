-- ===== src/AddressBook/Adding.antt =====
-- `AddressBook::add_address` of src/net/peers.rs: what is filtered, recorded, dialled and announced.
use ipfs_embed.Common.{
  ℕ, ◌+◌, ◌≡◌, refl, ◌≢◌, sym, ap, ◌∙◌, Bool, true, false, not, ◌&&◌, ◌||◌, Option, none, some,
  List, [], ◌∷◌, ◌++◌, any, arith, if◌then◌else◌, ◌==◌, nat_eq, unwrap_or,
}
use ipfs_embed.Common.Assoc.{
  Assoc, get, get-insert, get-insert_self, any-insert, any-get, not-is_empty-filterb, contains,
  contains_key,
}
use ipfs_embed.Multiaddr.{
  PeerId, Protocol, ip4, Multiaddr, multiaddr_eq, normalize_addr, without_peer_id, is_loopback,
}
use ipfs_embed.Multiaddr.Laws.{is_loopback-not_ip4}
use ipfs_embed.PeerInfo.{
  PeerInfo, AddressSource, Time, default_info, is_confirmed, confirmed_addresses, ingest_entry,
  ingest_address,
}
use ipfs_embed.PeerInfo.Addresses.{get-ingest_address, is_confirmed-ingest_entry}
use ipfs_embed.Dialing.{always}
use ipfs_embed.Events.{Env, Event}
use ipfs_embed.AddressBook.{
  AddressBook, info_of, has_confirmed, dial_to, own_handler, sim_open_retries, add_address,
  add_unfiltered,
}
use ipfs_embed.AddressBook.Notify.{notify_all}

-- The calls that `add_address` ignores: for ourselves, for what counts as loopback where that is
-- disabled, and for an address that we listen on.
abbrev pub is_ignored : PeerId → Multiaddr → AddressBook → Bool
is_ignored peer address b =
    peer == b.local_peer_id
    || (not b.enable_loopback && is_loopback address
        || contains (without_peer_id address) b.listeners)

-- What an accepted call records: the entry of the address in the peer's record.
abbrev pub address_entry : PeerId → Multiaddr → AddressBook → Option (AddressSource × Time)
address_entry peer address b = get address (info_of peer b).addresses

abbrev confirmed_entry : Multiaddr × (AddressSource × Time) → Bool
confirmed_entry e = is_confirmed e.1.0

has_confirmed-some :
    (info : PeerInfo) → has_confirmed (some info) ≡ any confirmed_entry info.addresses
unfolding confirmed_addresses
has_confirmed-some info = not-is_empty-filterb (λ e. e.0) confirmed_entry info.addresses

has_confirmed-unwrap :
    (o : Option PeerInfo) → has_confirmed o ≡ has_confirmed (some (unwrap_or o default_info))
unfolding confirmed_addresses
has_confirmed-unwrap none = refl
has_confirmed-unwrap (some info) = refl

confirmed-entry :
    (now : Time) (source : AddressSource) (addr : Multiaddr)
    (m : Assoc Multiaddr (AddressSource × Time))
    → (any confirmed_entry m || is_confirmed (ingest_entry now source (get addr m)).0.0)
      ≡ (any confirmed_entry m || is_confirmed source)
confirmed-entry now source addr m =
    ground
      (arith, any-get confirmed_entry addr m, is_confirmed-ingest_entry now source (get addr m))

-- One more sighting leaves a peer with a confirmed address if it had one or if this one confirms.
has_confirmed-ingest :
    (now : Time) (addr : Multiaddr) (source : AddressSource) (info : PeerInfo)
    → has_confirmed (some (ingest_address now addr source info).0)
      ≡ (has_confirmed (some info) || is_confirmed source)
unfolding ingest_address
has_confirmed-ingest now addr source info =
    let entry = (ingest_entry now source (get addr info.addresses)).0 in
    has_confirmed-some _
    ∙ any-insert confirmed_entry addr entry info.addresses
        (λ h. ground (arith, is_confirmed-ingest_entry now source (get addr info.addresses)))
    ∙ confirmed-entry now source addr info.addresses
    ∙ ap (λ c. c || is_confirmed source) (sym (has_confirmed-some info))

module _ (env : Env) (peer : PeerId) (address : Multiaddr) (source : AddressSource)
    (b : AddressBook) where
  abbrev full : Multiaddr
  full = normalize_addr env.codec address peer

  add_address-ignored : is_ignored peer address b ≡ true → add_address env peer address source b ≡ b
  unfolding add_address
  add_address-ignored h = ground arith

  add_address-accepted :
      is_ignored peer address b ≡ false
      → add_address env peer address source b
        ≡ add_unfiltered env peer
            (without_peer_id address)
            full
            source
            (not (has_confirmed (get peer b.peers)))
            b
  unfolding add_address
  add_address-accepted h = ground arith

  -- Whether this call makes a probe, and whether it confirms a peer that had no confirmed address.
  abbrev pub asks_probe : Bool
  asks_probe =
      (ingest_entry env.now source (address_entry peer full b)).1
      && not (contains_key full (info_of peer b).connections)

  abbrev pub discovers : Bool
  discovers = not (has_confirmed (get peer b.peers)) && is_confirmed source

  abbrev pub announcements : List Event
  announcements =
      if discovers
      then Event.discovered peer ∷ Event.new_info peer ∷ []
      else Event.new_info peer ∷ []

  unfiltered : AddressBook
  unfiltered =
      add_unfiltered env peer (without_peer_id address) full source
        (not (has_confirmed (get peer b.peers))) b

  recorded-unfiltered :
      (q : PeerId) (a : Multiaddr)
      → address_entry q a unfiltered ≡ (
          if peer == q && full == a
          then some (ingest_entry env.now source (address_entry peer full b)).0
          else address_entry q a b)
  unfolding unfiltered add_unfiltered
  recorded-unfiltered q a = ground (
    arith,
    nat_eq.beq_iff peer q,
    get-ingest_address env.now full a source (info_of peer b),
    get-insert peer q (ingest_address env.now full source (info_of peer b)).0 b.peers,
  )

  actions-unfiltered : unfiltered.actions ≡ (
      if asks_probe
      then b.actions
        ++ dial_to peer always
            (without_peer_id address)
            (own_handler full (sim_open_retries + 1) false)
          ∷ []
      else b.actions)
  unfolding unfiltered add_unfiltered ingest_address
  actions-unfiltered = ground arith

  announced-unfiltered :
      (unfiltered.sent ≡ (notify_all env announcements b).sent)
      × (unfiltered.event_stream ≡ (notify_all env announcements b).event_stream)
  unfolding unfiltered add_unfiltered notify_all
  announced-unfiltered = ground arith

  peer-unfiltered :
      get peer unfiltered.peers ≡ some (ingest_address env.now full source (info_of peer b)).0
  unfolding unfiltered add_unfiltered
  peer-unfiltered =
      ground (
        arith,
        get-insert_self peer (ingest_address env.now full source (info_of peer b)).0 b.peers,
      )

  confirms-unfiltered :
      has_confirmed (get peer unfiltered.peers)
      ≡ (has_confirmed (get peer b.peers) || is_confirmed source)
  confirms-unfiltered = rw peer-unfiltered (
      has_confirmed-ingest env.now full source (info_of peer b)
      ∙ rw (has_confirmed-unwrap (get peer b.peers)))

  pub add_address_lem :
      is_ignored peer address b ≡ false
      → ((q : PeerId) (a : Multiaddr)
          → address_entry q a (add_address env peer address source b) ≡ (
              if peer == q && full == a
              then some (ingest_entry env.now source (address_entry peer full b)).0
              else address_entry q a b))
        × ((add_address env peer address source b).actions ≡ (
            if asks_probe
            then b.actions
              ++ dial_to peer always (without_peer_id address) (own_handler full 11 false) ∷ []
            else b.actions))
  unfolding unfiltered
  add_address_lem h = rw (add_address-accepted h) (recorded-unfiltered, actions-unfiltered)

  -- An address that is not ignored is announced by `NewInfo`, and before that by `Discovered` exactly
  -- when it takes its peer from having no confirmed address to having one; nothing else is sent. The
  -- peer then has a confirmed address if it had one or if the source confirms.
  pub add_address-announces :
      is_ignored peer address b ≡ false
      → let b' = add_address env peer address source b in
        let before = has_confirmed (get peer b.peers) in
        let after = has_confirmed (get peer b'.peers) in
        let events =
          if not before && after
          then Event.discovered peer ∷ Event.new_info peer ∷ []
          else Event.new_info peer ∷ [] in
        (b'.sent ≡ (notify_all env events b).sent)
        × (b'.event_stream ≡ (notify_all env events b).event_stream)
        × (after ≡ (before || is_confirmed source))
  unfolding unfiltered
  add_address-announces h =
      rw (add_address-accepted h) (ground (arith, confirms-unfiltered, announced-unfiltered))

-- While loopback addresses are disabled, every address that begins with another component than an
-- IPv4 address (IPv6, a DNS name) is dropped without a trace.
pub add_address-not_ip4 :
    (env : Env) (peer : PeerId) (p : Protocol) (rest : Multiaddr) (source : AddressSource)
    (b : AddressBook)
    → b.enable_loopback ≡ false
    → ((ip : ℕ) → p ≢ ip4 ip)
    → add_address env peer (p ∷ rest) source b ≡ b
add_address-not_ip4 env peer p rest source b off h =
    add_address-ignored env peer (p ∷ rest) source b (ground (arith, is_loopback-not_ip4 p rest h))
