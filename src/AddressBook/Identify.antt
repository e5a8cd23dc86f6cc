-- ===== src/AddressBook/Identify.antt =====
-- `AddressBook::set_info` of src/net/peers.rs: what a peer says of itself by the identify protocol,
-- and the listen addresses that are guessed from it and probed.
use ipfs_embed.Common.{
  ℕ, String, Bool, false, not, ◌&&◌, ◌||◌, Option, none, some, List, [], ◌∷◌, ◌++◌, map, filterb,
  if◌then◌else◌, ◌==◌, nat_eq, drop_last, unwrap_or,
}
use ipfs_embed.Common.Assoc.{get, insert_key, contains, contains_key}
use ipfs_embed.Multiaddr.{
  PeerId, PeerCodec, Multiaddr, multiaddr_eq, normalize_addr, is_loopback, IpAddr, ip_addr_eq,
  ip_port, replace_port,
}
use ipfs_embed.PeerInfo.{
  PeerInfo, AddressSource, is_to_translate, addresses_to_translate, ingest_address,
}
use ipfs_embed.Dialing.{Dial, always}
use ipfs_embed.Events.{Env, Event}
use ipfs_embed.AddressBook.{AddressBook, dial_to, own_handler, set_peer, notify}

-- `identify::Info`
pub record IdentifyInfo : Type 0 where
  pub protocol_version : String
  pub agent_version : String
  pub protocols : List String
  pub listen_addrs : List Multiaddr

unfoldable pub identified : IdentifyInfo → PeerInfo → PeerInfo
identified i info = record info {
  protocol_version = some i.protocol_version;
  agent_version = some i.agent_version;
  protocols = i.protocols;
  listeners = i.listen_addrs;
}

abbrev pub cons_some {ℓ} : {A : Type ℓ} → Option A → List A → List A
cons_some none l = l
cons_some (some a) l = a ∷ l

abbrev pub filter_map {ℓ κ} : {A : Type ℓ} {B : Type κ} → (A → Option B) → List A → List B
filter_map f [] = []
filter_map f (x ∷ xs) = cons_some (f x) (filter_map f xs)

-- The advertised addresses and ports, but for those that we are connected to.
unfoldable pub listen_ports : PeerCodec → PeerId → PeerInfo → List (IpAddr × ℕ)
listen_ports c peer info =
    filter_map ip_port
      (filterb (λ a. not (contains_key (normalize_addr c a peer) info.connections)) info.listeners)

-- `collect::<FnvHashSet<_>>()`, and `extend` of a set
abbrev pub extend_ports : List ℕ → List (IpAddr × ℕ) → List ℕ
extend_ports set [] = set
extend_ports set ((ip, p) ∷ rest) = extend_ports (insert_key p set) rest

abbrev pub extend_set : List Multiaddr → List Multiaddr → List Multiaddr
extend_set set [] = set
extend_set set (a ∷ rest) = extend_set (insert_key a set) rest

-- `addr.replace(1, ..).unwrap()`, for an address that `ip_port` reads
abbrev pub with_port : Multiaddr → ℕ → Multiaddr
with_port addr port = unwrap_or (replace_port addr port) addr

abbrev pub same_ip : IpAddr → List (IpAddr × ℕ) → List ℕ
same_ip ip ports = map (λ e. e.1) (filterb (λ e. e.0 == ip) ports)

-- The candidates for one incoming address: the ports advertised for its IP, or else every
-- advertised port, or else the address itself.
abbrev pub translations_from : Multiaddr → List ℕ → List ℕ → List Multiaddr
translations_from addr [] [] = addr ∷ []
translations_from addr [] (p ∷ common) = map (with_port addr) (p ∷ common)
translations_from addr (p ∷ ports) common = map (with_port addr) (p ∷ ports)

abbrev pub translations_at :
    List (IpAddr × ℕ) → List ℕ → Multiaddr → Option (IpAddr × ℕ) → List Multiaddr
translations_at ports common addr none = []
translations_at ports common addr (some (ip, port)) =
    translations_from addr (same_ip ip ports) common

unfoldable pub translations : List (IpAddr × ℕ) → List ℕ → Multiaddr → List Multiaddr
translations ports common addr = translations_at ports common addr (ip_port addr)

abbrev pub translate_all :
    List (IpAddr × ℕ) → List ℕ → List Multiaddr → List Multiaddr → List Multiaddr
translate_all ports common set [] = set
translate_all ports common set (a ∷ rest) =
    translate_all ports common (extend_set set (translations ports common a)) rest

-- Every address to validate: the translations, and the listeners that may be used.
unfoldable pub candidates : PeerCodec → PeerId → Bool → PeerInfo → List Multiaddr
candidates c peer loopback info =
    let ports = listen_ports c peer info in
    let translated = translate_all ports (extend_ports [] ports) [] (addresses_to_translate info) in
    extend_set translated (
      map (λ a. normalize_addr c a peer)
        (filterb (λ a. loopback || not (is_loopback a)) info.listeners))

-- `info.addresses.retain(|_a, (s, _dt)| !s.is_to_translate())`
unfoldable pub drop_translated : PeerInfo → PeerInfo
drop_translated info = record info {
  addresses = filterb (λ e. not (is_to_translate e.1.0)) info.addresses;
}

module _ (env : Env) (peer : PeerId) where
  open env use {codec, now}

  -- One round of the loop over the candidates: the new record, and the dial to push.
  unfoldable pub validate : Bool → List Multiaddr → Multiaddr → PeerInfo → PeerInfo × Option Dial
  validate port_reuse own addr info =
      if contains (drop_last addr) own
      then (info, none)
      else let r = ingest_address now addr AddressSource.listen info in
        if not r.1
        then (r.0, none)
        else if port_reuse && contains_key addr r.0.connections
        then ((ingest_address now addr AddressSource.candidate r.0).0, none)
        else (r.0, some (dial_to peer always (drop_last addr) (own_handler addr 4 false)))

  unfoldable pub validate_all :
      Bool → List Multiaddr → List Multiaddr → PeerInfo → PeerInfo × List Dial
  unfolding validate
  validate_all port_reuse own [] info = (info, [])
  validate_all port_reuse own (addr ∷ rest) info =
      let r = validate port_reuse own addr info in
      let later = validate_all port_reuse own rest r.0 in (later.0, cons_some r.1 later.1)

  unfoldable pub set_info : IdentifyInfo → AddressBook → AddressBook
  unfolding validate_all notify
  set_info identify b = elim (get peer b.peers) [
    | none ↦ b
    | some info ↦
        let known = identified identify info in
        let r =
          validate_all b.port_reuse b.listeners (candidates codec peer b.enable_loopback known)
            (drop_translated known) in
        notify env (Event.new_info peer)
          (record (set_peer peer r.0 b) { actions = b.actions ++ r.1 })
  ]
