-- ===== src/Dialing.antt =====
-- src/net/address_handler.rs, the dial requests and dial errors of libp2p as src/net/peers.rs reads
-- them, and the failures that src/net/peer_info.rs makes of them.
use ipfs_embed.Common.{
  ℕ, String, ◌<>◌, Bool, true, false, Option, none, some, List, [], ◌∷◌, if◌then◌else◌, last?,
  ◌>>=◌, any,
}
use ipfs_embed.Multiaddr.{
  PeerId, PeerCodec, Multiaddr, ConnectedPoint, peer_of_protocol, without_peer_id,
}
use ipfs_embed.PeerInfo.{
  Time, ConnectionFailure, failure_at, dial_error, peer_disconnected, we_disconnected,
}

-- The dial that this handler belongs to, with the redials left to it, if the address book asked for
-- it; and whether the connection is kept alive.
pub record IntoAddressHandler : Type 0 where
  pub own_dial : Option (Multiaddr × ℕ)
  pub keep_alive : Bool

unfoldable pub handler_peer_id : PeerCodec → IntoAddressHandler → Option PeerId
handler_peer_id c h = do (addr, retries) ← h.own_dial; peer_of_protocol c (last? addr)

pub record AddressHandler : Type 0 where
  pub own_dial : Option (Multiaddr × ℕ)
  pub remote_peer_id : PeerId
  pub connected_point : ConnectedPoint
  pub keep_alive : Bool

unfoldable pub into_handler : IntoAddressHandler → PeerId → ConnectedPoint → AddressHandler
into_handler h remote_peer_id connected_point = record {
  own_dial = h.own_dial;
  remote_peer_id = remote_peer_id;
  connected_point = connected_point;
  keep_alive = h.keep_alive;
}

pub data KeepAlive : Type 0 where
  keep close : KeepAlive

unfoldable pub connection_keep_alive : AddressHandler → KeepAlive
connection_keep_alive h = if h.keep_alive then keep else close

-- libp2p's default condition of `DialOpts`, and `PeerCondition::Always`.
pub data PeerCondition : Type 0 where
  default_condition always : PeerCondition

-- `NetworkBehaviourAction::Dial`, the one action of the address book
pub record Dial : Type 0 where
  pub peer : PeerId
  pub condition : PeerCondition
  pub addresses : Option (List Multiaddr)
  pub handler : IntoAddressHandler

-- The error types that `is_sim_open` takes apart. A `Unit` is a part that it never looks into.
pub data EitherError (A B : Type 0) : Type 0 where
  a : A → EitherError A B
  b : B → EitherError A B

pub data ErrorKind : Type 0 where
  invalid_data other_kind : ErrorKind

pub data NoiseError : Type 0 where
  io : ErrorKind → NoiseError
  other_noise : NoiseError

pub data UpgradeError : Type 0 where
  select : UpgradeError
  apply : NoiseError → UpgradeError

pub data TransportTimeoutError : Type 0 where
  timeout timer_error : TransportTimeoutError
  other_timeout :
      EitherError (EitherError (Unit {0}) UpgradeError) (Unit {0}) → TransportTimeoutError

-- `Transport` holds an I/O error; its payload is what the downcast to the swarm's error type gives.
pub data DnsErr : Type 0 where
  transport_err : Option TransportTimeoutError → DnsErr
  other_dns : DnsErr

-- `Other` holds an I/O error; its payload is what the downcast to `DnsErr` gives.
pub data TransportErrorKind : Type 0 where
  multiaddr_not_supported : Multiaddr → TransportErrorKind
  other : Option DnsErr → TransportErrorKind

-- An error with its `Display` and `Debug` texts, and that of its source.
pub record TransportError : Type 0 where
  pub kind : TransportErrorKind
  pub shown : String
  pub source : Option String
  pub debug : String

abbrev timeout_is_sim_open : Option TransportTimeoutError → Bool
timeout_is_sim_open
      (some (other_timeout (EitherError.a (EitherError.b (apply (io invalid_data)))))) =
    true
timeout_is_sim_open _ = false

abbrev kind_is_sim_open : TransportErrorKind → Bool
kind_is_sim_open (other (some (transport_err e))) = timeout_is_sim_open e
kind_is_sim_open _ = false

unfoldable pub is_sim_open : TransportError → Bool
is_sim_open e = kind_is_sim_open e.kind

pub data DialErrorKind : Type 0 where
  banned local_peer_id dial_peer_condition_false wrong_peer_id other_dial : DialErrorKind
  connection_io : String → DialErrorKind
  transport : List (Multiaddr × TransportError) → DialErrorKind

pub record DialError : Type 0 where
  pub kind : DialErrorKind
  pub shown : String
  pub debug : String

abbrev pub is_transport : DialErrorKind → Bool
is_transport (transport v) = true
is_transport _ = false

abbrev pub is_wrong_peer : DialErrorKind → Bool
is_wrong_peer wrong_peer_id = true
is_wrong_peer _ = false

abbrev pub is_connection_io : DialErrorKind → Bool
is_connection_io (connection_io e) = true
is_connection_io _ = false

abbrev pub any_sim_open : DialErrorKind → Bool
any_sim_open (transport v) = any (λ e. is_sim_open e.1) v
any_sim_open _ = false

-- The wrapper `D`: an error followed by its source.
unfoldable pub show_with_source : TransportError → String
show_with_source e = elim e.source [ none ↦ e.shown | some cause ↦ e.shown <> cause ]

-- The texts depend on how libp2p prints an address, `show_addr`.
module _ (show_addr : Multiaddr → String) where
  unfoldable pub show_transport_errors : List (Multiaddr × TransportError) → String
  show_transport_errors [] = ""
  show_transport_errors ((addr, err) ∷ v) =
      "\n"
      <> (show_addr (without_peer_id addr)
          <> (" " <> (show_with_source err <> show_transport_errors v)))

  unfoldable pub show_dial_error : DialErrorKind → String → String
  show_dial_error (connection_io e) shown = "I/O error: " <> e
  show_dial_error (transport ((addr, e) ∷ [])) shown = "transport error: " <> show_with_source e
  show_dial_error (transport v) shown = "transport errors:" <> show_transport_errors v
  show_dial_error _ shown = shown

  -- `ConnectionFailure::dial`
  unfoldable pub failure_dial : Time → Multiaddr → DialError → ConnectionFailure
  failure_dial now addr error =
      failure_at dial_error now (without_peer_id addr) (show_dial_error error.kind error.shown)
        error.debug

-- `ConnectionFailure::transport`
unfoldable pub failure_transport : Time → Multiaddr → TransportError → ConnectionFailure
failure_transport now addr error =
    failure_at dial_error now (without_peer_id addr) ("transport error: " <> show_with_source error)
      error.debug

-- `ConnectionFailure::us` and `ConnectionFailure::them`
unfoldable pub failure_us : Time → Multiaddr → String → String → ConnectionFailure
failure_us now addr display debug = failure_at we_disconnected now addr display debug

unfoldable pub failure_them : Time → Multiaddr → String → String → ConnectionFailure
failure_them now addr display debug = failure_at peer_disconnected now addr display debug
