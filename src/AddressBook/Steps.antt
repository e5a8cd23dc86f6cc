-- ===== src/AddressBook/Steps.antt =====
-- Everything that can happen to an `AddressBook` of src/net/peers.rs, as a step relation: the swarm's
-- callbacks and the calls of src/net/behaviour.rs, each under an environment of its own.
use ipfs_embed.Common.{ℕ, String, Bool, ◌≡◌, Option, some, List}
use ipfs_embed.Multiaddr.{PeerId, Multiaddr, ConnectedPoint}
use ipfs_embed.PeerInfo.{AddressSource}
use ipfs_embed.Dialing.{IntoAddressHandler, DialError}
use ipfs_embed.Events.{Env, Event, Sender, ListenerId, CloseCause}
use ipfs_embed.AddressBook
use ipfs_embed.AddressBook.{AddressBook}
use ipfs_embed.AddressBook.Identify
use ipfs_embed.AddressBook.Identify.{IdentifyInfo}
use ipfs_embed.AddressBook.Failing.{inject_dial_failure}
use ipfs_embed.AddressBook.Callbacks
use ipfs_embed.AddressBook.Callbacks.{
  inject_connection_established, inject_address_change, inject_new_listener, inject_new_listen_addr,
  inject_expired_listen_addr, inject_listener_error, inject_listener_closed,
  inject_new_external_addr, inject_expired_external_addr,
}

-- A call with its arguments.
pub data Call : Type 0 where
  swarm_events : Sender → Call
  notify : Event → Call
  dial : PeerId → Call
  dial_address remove_address : PeerId → Multiaddr → Call
  add_address : PeerId → Multiaddr → AddressSource → Call
  prune_peers : ℕ → Call
  connection_closed : PeerId → ConnectedPoint → ℕ → Option CloseCause → Call
  set_info : PeerId → IdentifyInfo → Call
  connection_established : PeerId → ConnectedPoint → ℕ → Call
  address_change : PeerId → ConnectedPoint → ConnectedPoint → Call
  dial_failure : Option PeerId → IntoAddressHandler → DialError → Call
  new_listener listener_closed : ListenerId → Call
  new_listen_addr expired_listen_addr : ListenerId → Multiaddr → Call
  listener_error : ListenerId → String → Call
  new_external_addr expired_external_addr : Multiaddr → Call
  poll : List Multiaddr → Option ℕ → Call

unfoldable pub perform : Env → Call → AddressBook → AddressBook
perform env (Call.swarm_events tx) b = AddressBook.swarm_events tx b
perform env (Call.notify e) b = AddressBook.notify env e b
perform env (Call.dial peer) b = AddressBook.dial peer b
perform env (Call.dial_address peer addr) b = AddressBook.dial_address env peer addr b
perform env (Call.remove_address peer addr) b = AddressBook.remove_address env peer addr b
perform env (Call.add_address peer addr source) b = AddressBook.add_address env peer addr source b
perform env (Call.prune_peers min_age) b = AddressBook.prune_peers env min_age b
perform env (Call.connection_closed peer point n error) b =
    AddressBook.connection_closed env peer point n error b
perform env (Call.set_info peer info) b = Identify.set_info env peer info b
perform env (Call.connection_established peer point n) b =
    inject_connection_established env peer point n b
perform env (Call.address_change peer old new) b = inject_address_change env peer old new b
perform env (Call.dial_failure peer handler error) b = inject_dial_failure env peer handler error b
perform env (Call.new_listener id) b = inject_new_listener env id b
perform env (Call.listener_closed id) b = inject_listener_closed env id b
perform env (Call.new_listen_addr id addr) b = inject_new_listen_addr env id addr b
perform env (Call.expired_listen_addr id addr) b = inject_expired_listen_addr env id addr b
perform env (Call.listener_error id err) b = inject_listener_error env id err b
perform env (Call.new_external_addr addr) b = inject_new_external_addr env addr b
perform env (Call.expired_external_addr addr) b = inject_expired_external_addr env addr b
perform env (Call.poll external ready) b = (Callbacks.poll external ready b).1

-- A ping result may panic, so it is a step of its own.
pub data Step (b c : AddressBook) : Type 0 where
  call : (env : Env) (k : Call) → c ≡ perform env k b → Step b c
  ping :
      (env : Env) (peer : PeerId) (rtt : Option ℕ)
      → AddressBook.set_rtt env peer rtt b ≡ some c
      → Step b c

-- The books that a node can come to, from a fresh one.
pub data Reachable : AddressBook → Type 0 where
  start :
      (peer : PeerId) (port_reuse enable_loopback keep_alive : Bool)
      → Reachable (AddressBook.new peer port_reuse enable_loopback keep_alive)
  next : {b c : AddressBook} → Reachable b → Step b c → Reachable c
