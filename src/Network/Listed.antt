-- ===== src/Network/Listed.antt =====
-- `connections` and `is_connected` of src/net/mod.rs agree.
use ipfs_embed.Common.{
  ◌≡◌, refl, Bool, false, not, ◌&&◌, ◌||◌, List, [], ◌∷◌, ◌++◌, map, any, arith, is_empty, ◌==◌,
  nat_eq,
}
use ipfs_embed.Common.Assoc.{Assoc, get}
use ipfs_embed.Common.Assoc
use ipfs_embed.Common.Distinct.{Distinct, keys}
use ipfs_embed.Multiaddr.{PeerId, Multiaddr}
use ipfs_embed.PeerInfo.{PeerInfo, Time, Direction}
use ipfs_embed.AddressBook.{AddressBook}
use ipfs_embed.AddressBook.Connected.{is_connected, has_connection}
use ipfs_embed.Network.Reading.{connections, connections_of, all_connections}

abbrev pub Connection : Type 0
Connection = PeerId × Multiaddr × Time × Direction

-- Whether a list of connections has one to the peer.
abbrev pub lists_peer : PeerId → List Connection → Bool
lists_peer peer cs = any (λ c. c.0 == peer) cs

lists_peer-append :
    (peer : PeerId) (xs ys : List Connection)
    → lists_peer peer (xs ++ ys) ≡ (lists_peer peer xs || lists_peer peer ys)
lists_peer-append peer [] ys = refl
lists_peer-append peer (x ∷ xs) ys = ground (arith, lists_peer-append peer xs ys)

lists_peer-one :
    (peer j : PeerId) (cs : Assoc Multiaddr (Time × Direction))
    → lists_peer peer (map (λ e. (j, e.0, e.1.0, e.1.1)) cs) ≡ (j == peer && not (is_empty cs))
lists_peer-one peer j [] = ground arith
lists_peer-one peer j (c ∷ cs) = ground (arith, lists_peer-one peer j cs)

lists_peer-absent :
    (peer : PeerId) (m : Assoc PeerId PeerInfo)
    → Assoc.contains peer (keys m) ≡ false
    → lists_peer peer (all_connections m) ≡ false
unfolding Assoc.contains
lists_peer-absent peer [] h = refl
lists_peer-absent peer ((j, info) ∷ m) h = ground (
  arith,
  lists_peer-append peer (connections_of (j, info)) (all_connections m),
  lists_peer-one peer j info.connections,
  lists_peer-absent peer m (ground arith),
)

lists_peer-connections :
    (peer : PeerId) (m : Assoc PeerId PeerInfo)
    → Distinct (keys m)
    → lists_peer peer (all_connections m) ≡ has_connection (get peer m)
unfolding get
lists_peer-connections peer [] h = refl
lists_peer-connections peer ((j, info) ∷ m) h = ground (
  arith,
  lists_peer-append peer (connections_of (j, info)) (all_connections m),
  lists_peer-one peer j info.connections,
  lists_peer-connections peer m h.1,
  lists_peer-absent j m h.0,
)

-- In a book with one entry for each peer, the node is connected to exactly itself and the peers that
-- `connections` lists.
pub connections-is_connected :
    (peer : PeerId) (b : AddressBook)
    → Distinct (keys b.peers)
    → is_connected peer b ≡ (peer == b.local_peer_id || lists_peer peer (connections b))
unfolding is_connected connections
connections-is_connected peer b h = ground (arith, lists_peer-connections peer b.peers h)
