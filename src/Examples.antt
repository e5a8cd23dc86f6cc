-- ===== src/Examples.antt =====
-- Concrete environments, books and networks, for the examples of its children.
pub mod Peers
pub mod Books
pub mod Network
pub mod Store
pub mod Formats
pub mod Blocks
pub mod Programs
use ipfs_embed.Common.{ℕ, refl, Bool, true, false, Option, none, some, List, [], ◌∷◌, ltb}
use ipfs_embed.Multiaddr.{PeerCodec, Multiaddr, ip4, tcp, p2p}
use ipfs_embed.PeerInfo.{PeerInfo, default_info, AddressSource}
use ipfs_embed.Dialing.{
  DialError, TransportError, transport, other, transport_err, other_timeout, EitherError, apply, io,
  invalid_data,
}
use ipfs_embed.Events.{Env}
use ipfs_embed.AddressBook.{AddressBook, no_metrics, own_handler, dial_to}
use ipfs_embed.Behaviour.{NetworkBackend, Protocols}

abbrev pub codec : PeerCodec
codec = record { hash_of = λ p. p; peer_of = λ h. some h; peer_of-hash_of = λ p. refl }

-- Senders below 10 have their receiver.
abbrev pub env : Env
env = record {
  codec = codec;
  now = 100;
  alive = λ tx. ltb tx 10;
  random = λ i. 4_294_967_295;
  show_addr = λ a. "addr";
  debug_cause = λ c. "cause";
}

-- 10.0.0.1:4001, and the same address with the id of peer 2
abbrev pub addr : Multiaddr
addr = ip4 167_772_161 ∷ tcp 4001 ∷ []

abbrev pub addr_2 : Multiaddr
addr_2 = ip4 167_772_161 ∷ tcp 4001 ∷ p2p 2 ∷ []

abbrev pub known : PeerInfo
known = record default_info { addresses = (addr_2, (AddressSource.listen, 40)) ∷ [] }

-- The book of peer 1, that knows peer 2 and has the subscribers 3 and, gone, 30.
abbrev pub book : AddressBook
book = record {
  port_reuse = true;
  enable_loopback = false;
  keep_alive = false;
  local_peer_id = 1;
  listeners = [];
  peers = (2, known) ∷ [];
  external = [];
  refresh_external = false;
  event_stream = 3 ∷ 30 ∷ [];
  actions = [];
  deferred = [];
  sent = [];
  metrics = no_metrics;
}

abbrev pub sim_open : DialError
sim_open = record {
  kind = transport (
      (
        addr,
        record {
          kind = other (
              some (
                transport_err (
                  some (other_timeout (EitherError.a (EitherError.b (apply (io invalid_data))))))));
          shown = "e";
          source = none;
          debug = "d";
        },
      )
      ∷ []);
  shown = "e";
  debug = "d";
}

abbrev pub network : NetworkBackend
network = record {
  peers = book;
  protocols = record {
    mdns = true;
    kad = true;
    ping = true;
    identify = true;
    gossipsub = true;
    broadcast = true;
    bitswap = true;
  };
  bootstrap_complete = false;
  queries = [];
  subscriptions = [];
  replies = [];
  gossip = [];
  requests = [];
}
