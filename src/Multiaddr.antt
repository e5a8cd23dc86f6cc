-- ===== src/Multiaddr.antt =====
-- The address helpers of src/net/peers.rs: multiaddrs with and without a trailing peer id.
-- A `Multiaddr` is its sequence of protocols; `iter`, `push` and `pop` work at the list's ends.
pub mod Laws
use ipfs_embed.Common.{
  ℕ, ◌/◌, ◌^◌, ◌≡◌, Bool, true, false, Option, none, some, List, [], ◌∷◌, ◌++◌, ℕ_discrete, eqb,
  if◌then◌else◌, last?, drop_last, HasEq, of_discrete, ◌>>=◌,
}

-- Opaque identifiers of libp2p, of which the program uses the equality alone.
abbrev pub PeerId : Type 0
PeerId = ℕ

abbrev pub Multihash : Type 0
Multihash = ℕ

-- A peer id as the multihash that a `/p2p` component holds; a foreign multihash may be no peer id.
pub record PeerCodec : Type 0 where
  pub hash_of : PeerId → Multihash
  pub peer_of : Multihash → Option PeerId
  pub peer_of-hash_of : (p : PeerId) → peer_of (hash_of p) ≡ some p

-- The protocols that the program tells apart, by their payload; `other` is any further one.
pub data Protocol : Type 0 where
  ip4 ip6 tcp p2p other : ℕ → Protocol

unfoldable pub Protocol-discrete : Discrete Protocol
Protocol-discrete = hlevel ℕ_discrete

abbrev pub Multiaddr : Type 0
Multiaddr = List Protocol

unfoldable pub Multiaddr-discrete : Discrete Multiaddr
Multiaddr-discrete = hlevel Protocol-discrete

instance abbrev pub multiaddr_eq : HasEq Multiaddr
multiaddr_eq = of_discrete Multiaddr-discrete

-- `matches!(a.iter().last(), Some(Protocol::P2p(_)))`
abbrev pub is_p2p : Option Protocol → Bool
is_p2p (some (p2p h)) = true
is_p2p _ = false

abbrev pub ends_with_peer : Multiaddr → Bool
ends_with_peer addr = is_p2p (last? addr)

-- `normalize_addr` in place, `normalize_addr_ref` on a copy
unfoldable pub normalize_addr : PeerCodec → Multiaddr → PeerId → Multiaddr
normalize_addr c addr peer = if ends_with_peer addr then addr else addr ++ p2p (c.hash_of peer) ∷ []

unfoldable pub without_peer_id : Multiaddr → Multiaddr
without_peer_id addr = if ends_with_peer addr then drop_last addr else addr

-- The octets of 127.0.0.0/8.
abbrev pub ip4_is_loopback : ℕ → Bool
ip4_is_loopback ip = eqb (ip / 2 ^ 24) 127

unfoldable pub is_loopback : Multiaddr → Bool
is_loopback (ip4 ip ∷ rest) = ip4_is_loopback ip
is_loopback _ = true

abbrev pub peer_of_protocol : PeerCodec → Option Protocol → Option PeerId
peer_of_protocol c (some (p2p h)) = c.peer_of h
peer_of_protocol c _ = none

unfoldable pub peer_id : PeerCodec → Multiaddr → Option PeerId
peer_id c addr = peer_of_protocol c (last? addr)

pub data IpAddr : Type 0 where
  v4 v6 : ℕ → IpAddr

unfoldable pub IpAddr-discrete : Discrete IpAddr
IpAddr-discrete = hlevel ℕ_discrete

instance abbrev pub ip_addr_eq : HasEq IpAddr
ip_addr_eq = of_discrete IpAddr-discrete

unfoldable pub ip_port : Multiaddr → Option (IpAddr × ℕ)
ip_port (ip4 ip ∷ tcp p ∷ rest) = some (v4 ip, p)
ip_port (ip6 ip ∷ tcp p ∷ rest) = some (v6 ip, p)
ip_port _ = none

-- `addr.replace(1, |_| Some(Protocol::Tcp(port)))`, which is `None` on fewer than two components
unfoldable pub replace_port : Multiaddr → ℕ → Option Multiaddr
replace_port (a ∷ b ∷ rest) port = some (a ∷ tcp port ∷ rest)
replace_port _ port = none

pub data ConnectedPoint : Type 0 where
  dialer : Multiaddr → ConnectedPoint
  listener : Multiaddr → Multiaddr → ConnectedPoint

unfoldable pub normalize_connected_point :
    PeerCodec → ConnectedPoint → PeerId → PeerId → ConnectedPoint
normalize_connected_point c (dialer address) local remote = dialer (normalize_addr c address remote)
normalize_connected_point c (listener local_addr send_back_addr) local remote =
    listener (normalize_addr c local_addr local) (normalize_addr c send_back_addr remote)

-- `ConnectedPoint::get_remote_address` and `is_dialer`
abbrev pub get_remote_address : ConnectedPoint → Multiaddr
get_remote_address (dialer address) = address
get_remote_address (listener local_addr send_back_addr) = send_back_addr

abbrev pub is_dialer : ConnectedPoint → Bool
is_dialer (dialer address) = true
is_dialer (listener local_addr send_back_addr) = false
