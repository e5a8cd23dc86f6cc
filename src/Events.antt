-- ===== src/Events.antt =====
-- `Event` of src/net/peers.rs, and what the environment answers during one call of a handler.
use ipfs_embed.Common.{ℕ, String, Bool, Option}
use ipfs_embed.Multiaddr.{PeerId, PeerCodec, Multiaddr, ConnectedPoint}
use ipfs_embed.PeerInfo.{Time}

abbrev pub ListenerId : Type 0
ListenerId = ℕ

pub data Event : Type 0 where
  new_listener listener_closed : ListenerId → Event
  new_listen_addr expired_listen_addr : ListenerId → Multiaddr → Event
  listener_error : ListenerId → String → Event
  new_external_addr expired_external_addr : Multiaddr → Event
  discovered unreachable connected disconnected new_info : PeerId → Event
  dial_failure : PeerId → Multiaddr → String → Event
  connection_established connection_closed : PeerId → ConnectedPoint → Event
  address_changed : PeerId → ConnectedPoint → ConnectedPoint → Event
  subscribed unsubscribed : PeerId → String → Event
  bootstrapped : Event

-- The sending half of an unbounded channel.
abbrev pub Sender : Type 0
Sender = ℕ

-- Why a connection was closed, with the error's text. `void` errors cannot occur.
pub data CloseCause : Type 0 where
  kademlia ping identify bitswap gossipsub broadcast connection_io : String → CloseCause
  keep_alive_timeout : CloseCause

-- One call reads the clock once, and no receiver is dropped while it runs. `alive` says which
-- senders still have their receiver, `random i` is the call's i-th random `u32`.
pub record Env : Type 0 where
  pub codec : PeerCodec
  pub now : Time
  pub alive : Sender → Bool
  pub random : ℕ → ℕ
  pub show_addr : Multiaddr → String
  pub debug_cause : Option CloseCause → String
