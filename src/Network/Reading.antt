-- ===== src/Network/Reading.antt =====
-- The methods of `NetworkService` in src/net/mod.rs that read the shared state.
use ipfs_embed.Common.{nat_eq, Bool, Option, List, [], ◌∷◌, ◌++◌, map}
use ipfs_embed.Common.Assoc
use ipfs_embed.Common.Assoc.{Assoc}
use ipfs_embed.Multiaddr.{PeerId, Multiaddr}
use ipfs_embed.PeerInfo.{PeerInfo, Time, Direction}
use ipfs_embed.AddressBook.{AddressBook}
use ipfs_embed.Behaviour.{NetworkBackend}

unfoldable pub listeners : AddressBook → List Multiaddr
listeners b = b.listeners

unfoldable pub external_addresses : AddressBook → List Multiaddr
external_addresses b = b.external

unfoldable pub peers : AddressBook → List PeerId
peers b = map (λ e. e.0) b.peers

abbrev pub connections_of : PeerId × PeerInfo → List (PeerId × Multiaddr × Time × Direction)
connections_of (peer, info) = map (λ e. (peer, e.0, e.1.0, e.1.1)) info.connections

abbrev pub all_connections : Assoc PeerId PeerInfo → List (PeerId × Multiaddr × Time × Direction)
all_connections [] = []
all_connections (e ∷ es) = connections_of e ++ all_connections es

unfoldable pub connections : AddressBook → List (PeerId × Multiaddr × Time × Direction)
connections b = all_connections b.peers

unfoldable pub peer_info : PeerId → AddressBook → Option PeerInfo
peer_info peer b = Assoc.get peer b.peers

unfoldable pub is_bootstrapped : NetworkBackend → Bool
is_bootstrapped s = s.bootstrap_complete
