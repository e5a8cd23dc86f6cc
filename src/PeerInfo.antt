-- ===== src/PeerInfo.antt =====
-- src/net/peer_info.rs: what is known of one peer. The clock reading of a call is its argument.
-- `Rtt` is the child of that name.
pub mod Rtt
pub mod Failures
pub mod Addresses
use Prim.Native.Nat.{compare, Ordering}
use ipfs_embed.Common.{
  ℕ, String, Bool, true, false, Option, none, some, List, [], ◌∷◌, ◌&&◌, ltb, if◌then◌else◌, length,
  drop_last, filterb, map, is_some, ◌>>=◌, any,
}
use ipfs_embed.Common.Assoc.{Assoc, get, insert, remove}
use ipfs_embed.Multiaddr.{
  Multiaddr, multiaddr_eq, ends_with_peer, ConnectedPoint, dialer, listener, without_peer_id,
}

abbrev pub Time : Type 0
Time = ℕ

pub data AddressSource : Type 0 where
  incoming listen kad mdns candidate user dial : AddressSource

pub data Direction : Type 0 where
  inbound outbound : Direction

unfoldable pub direction_of : ConnectedPoint → Direction
direction_of (dialer address) = outbound
direction_of (listener local_addr send_back_addr) = inbound

pub data ConnectionFailureKind : Type 0 where
  dial_error peer_disconnected we_disconnected : ConnectionFailureKind

pub record ConnectionFailure : Type 0 where
  pub kind : ConnectionFailureKind
  pub addr : Multiaddr
  pub time : Time
  pub display : String
  pub debug : String

pub record PeerInfo : Type 0 where
  pub protocol_version : Option String
  pub agent_version : Option String
  pub protocols : List String
  pub listeners : List Multiaddr
  pub addresses : Assoc Multiaddr (AddressSource × Time)
  pub connections : Assoc Multiaddr (Time × Direction)
  pub failures : List ConnectionFailure
  pub rtt : Option Rtt.Rtt

-- `PeerInfo::default()`
abbrev pub default_info : PeerInfo
default_info = record {
  protocol_version = none;
  agent_version = none;
  protocols = [];
  listeners = [];
  addresses = [];
  connections = [];
  failures = [];
  rtt = none;
}

-- The derived order of the enum: its declaration order.
abbrev pub rank : AddressSource → ℕ
rank incoming = 0
rank listen = 1
rank kad = 2
rank mdns = 3
rank candidate = 4
rank user = 5
rank dial = 6

unfoldable pub is_confirmed : AddressSource → Bool
is_confirmed dial = true
is_confirmed user = true
is_confirmed candidate = true
is_confirmed _ = false

unfoldable pub is_to_probe : AddressSource → Bool
is_to_probe listen = true
is_to_probe kad = true
is_to_probe mdns = true
is_to_probe candidate = true
is_to_probe _ = false

unfoldable pub is_to_translate : AddressSource → Bool
is_to_translate incoming = true
is_to_translate _ = false

abbrev pub addresses_where : (AddressSource → Bool) → PeerInfo → List Multiaddr
addresses_where p info = map (λ e. e.0) (filterb (λ e. p e.1.0) info.addresses)

unfoldable pub confirmed_addresses : PeerInfo → List Multiaddr
confirmed_addresses = addresses_where is_confirmed

unfoldable pub addresses_to_probe : PeerInfo → List Multiaddr
addresses_to_probe = addresses_where is_to_probe

unfoldable pub addresses_to_translate : PeerInfo → List Multiaddr
addresses_to_translate = addresses_where is_to_translate

abbrev pub failed_ping : Option Rtt.Rtt → Option Rtt.Rtt
failed_ping none = none
failed_ping (some r) = some (Rtt.register_failure r)

abbrev pub good_ping : ℕ → Option Rtt.Rtt → Option Rtt.Rtt
good_ping d none = some (Rtt.new d)
good_ping d (some r) = Rtt.register d r

-- `none` is the panic of an overflowing `Duration`.
unfoldable pub set_rtt : Option ℕ → PeerInfo → Option PeerInfo
set_rtt none info = some (record info { rtt = failed_ping info.rtt })
set_rtt (some duration) info = do
  r ← good_ping duration info.rtt
  some (record info { rtt = some r })

-- Whether a failed probe removes the address that this entry belongs to.
abbrev pub probed : Option (AddressSource × Time) → Bool
probed none = false
probed (some (source, time)) = is_to_probe source

unfoldable pub push_failure : Multiaddr → ConnectionFailure → Bool → PeerInfo → PeerInfo
push_failure addr f probe_result info = record info {
  addresses =
      if probe_result && probed (get addr info.addresses)
      then remove addr info.addresses
      else info.addresses;
  failures = f ∷ (if ltb 9 (length info.failures) then drop_last info.failures else info.failures);
}

abbrev pub ingest_known : Time → AddressSource → AddressSource → (AddressSource × Time) × Bool
ingest_known now source known = elim (compare (rank source) (rank known)) [
  | Ordering.gt ↦ ((source, now), is_to_probe source)
  | _ ↦ ((known, now), false)
]

-- The entry after the ingest, and whether the address is to be probed by dialling.
abbrev pub ingest_entry :
    Time → AddressSource → Option (AddressSource × Time) → (AddressSource × Time) × Bool
ingest_entry now source none = ((source, now), is_to_probe source)
ingest_entry now source (some (known, time)) = ingest_known now source known

unfoldable pub ingest_address : Time → Multiaddr → AddressSource → PeerInfo → PeerInfo × Bool
ingest_address now addr source info =
    let entry = ingest_entry now source (get addr info.addresses) in
    (record info { addresses = insert addr entry.0 info.addresses }, entry.1)

-- `without_peer` of this file is `without_peer_id` of peers.rs over again.
abbrev pub failure_at :
    ConnectionFailureKind → Time → Multiaddr → String → String → ConnectionFailure
failure_at kind now addr display debug = record {
  kind = kind;
  addr = addr;
  time = now;
  display = display;
  debug = debug;
}
