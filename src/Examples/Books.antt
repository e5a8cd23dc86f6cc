-- ===== src/Examples/Books.antt =====
-- Runs of the operations of src/net/peers.rs on a concrete book.
use ipfs_embed.Common.{
  ℕ, ◌≡◌, ◌≢◌, ◌≤◌, ◌+◌, ◌↔◌, refl, true, false, none, some, [], ◌∷◌, nat_eq, ℕ_discrete, All,
}
use ipfs_embed.Common.Assoc.{get, contains, insert}
use ipfs_embed.Multiaddr.{
  multiaddr_eq, Multiaddr-discrete, Protocol-discrete, ip4, ip6, tcp, normalize_addr,
  without_peer_id, is_loopback,
}
use ipfs_embed.PeerInfo.{
  AddressSource, is_to_probe, is_confirmed, confirmed_addresses, ingest_address,
}
use ipfs_embed.Dialing.{Dial, TransportError, other, always}
use ipfs_embed.Events.{Event}
use ipfs_embed.AddressBook.{
  AddressBook, add_address, own_handler, dial_to, prune_peers, is_kept, new,
}
use ipfs_embed.AddressBook.Identify.{IdentifyInfo, set_info}
use ipfs_embed.AddressBook.Failing.{failed_own}
use ipfs_embed.AddressBook.Steps.{Reachable, start, next, call, Call, perform}
use ipfs_embed.AddressBook.Keys.{IsValid}
use ipfs_embed.AddressBook.Invariant.{Reachable-IsValid}
use ipfs_embed.AddressBook.Gauges.{gauge-listening, listen_addrs_up, listen_addrs_down, listening}
use ipfs_embed.AddressBook.Notify.{inbox, notify_all, inbox-notify_all}
use ipfs_embed.AddressBook.Adding.{add_address_lem, add_address-announces, add_address-not_ip4}
use ipfs_embed.AddressBook.Pruning.{prune_peers_lem, prune_peers-Stays, Stays}
use ipfs_embed.AddressBook.Redial.{addresses-failed_own, redial_chain, redial_chain-le}
use ipfs_embed.AddressBook.Queue.{poll_times, polls_in_order}
use ipfs_embed.AddressBook.Validated.{Avoids, set_info-Avoids}
use ipfs_embed.AddressBook.{connection_closed}
use ipfs_embed.AddressBook.Callbacks.{inject_connection_established}
use ipfs_embed.AddressBook.Connected.{
  connection, is_connected, connection-established, connection-closed,
}
use ipfs_embed.Multiaddr.{ConnectedPoint, normalize_connected_point}
use ipfs_embed.Examples.{env, addr, addr_2, known, book, sim_open}

-- A fresh book that was told to subscribe a sender.
abbrev subscribed : AddressBook
subscribed = perform env (Call.swarm_events 3) (new 1 true true false)

abbrev subscribed_reached : Reachable subscribed
subscribed_reached = next (start 1 true true false) (call env (Call.swarm_events 3) refl)

Reachable-IsValid_example : IsValid subscribed
Reachable-IsValid_example = Reachable-IsValid subscribed subscribed_reached

-- Another node of the process, which listens on an address.
abbrev listening_book : AddressBook
listening_book = perform env (Call.new_listen_addr 1 addr) subscribed

gauge-listening_example :
    listen_addrs_up (listening_book ∷ subscribed ∷ [])
    ≡ listen_addrs_down (listening_book ∷ subscribed ∷ [])
      + listening (listening_book ∷ subscribed ∷ [])
gauge-listening_example = gauge-listening (listening_book ∷ subscribed ∷ []) (
  next subscribed_reached (call env (Call.new_listen_addr 1 addr) refl),
  (subscribed_reached, tt),
)

inbox-notify_all_example :
    inbox 3 (notify_all env (Event.new_info 2 ∷ Event.bootstrapped ∷ []) book).sent
    ≡ Event.new_info 2 ∷ Event.bootstrapped ∷ []
unfolding contains inbox
inbox-notify_all_example =
    inbox-notify_all env 3 (Event.new_info 2 ∷ Event.bootstrapped ∷ []) book (refl, (refl, tt))

add_address_example :
    (add_address env 2 addr AddressSource.mdns book).actions
    ≡ dial_to 2 always addr (own_handler addr_2 11 false) ∷ []
unfolding get contains is_to_probe is_loopback without_peer_id normalize_addr Multiaddr-discrete
    Protocol-discrete ℕ_discrete
add_address_example = (add_address_lem env 2 addr AddressSource.mdns book refl).1

add_address-announces_example :
    (add_address env 2 addr AddressSource.user book).sent
    ≡ (notify_all env (Event.discovered 2 ∷ Event.new_info 2 ∷ []) book).sent
unfolding get contains is_to_probe is_loopback without_peer_id normalize_addr is_confirmed
    confirmed_addresses Multiaddr-discrete Protocol-discrete ℕ_discrete add_address ingest_address
    insert
add_address-announces_example = (add_address-announces env 2 addr AddressSource.user book refl).0

ip6_not_ip4 : (ip : ℕ) → ip6 1 ≢ ip4 ip
ip6_not_ip4 ip e = cc

add_address-not_ip4_example :
    add_address env 2 (ip6 1 ∷ tcp 4001 ∷ []) AddressSource.user book ≡ book
add_address-not_ip4_example =
    add_address-not_ip4 env 2 (ip6 1) (tcp 4001 ∷ []) AddressSource.user book refl
      (λ ip e. ip6_not_ip4 ip e)

prune_peers_example : get 2 (prune_peers env 10 book).peers ≡ some known
unfolding get contains is_kept is_confirmed is_to_probe
prune_peers_example = (prune_peers_lem env 10 2 book (refl, tt)).0

prune_peers-Stays_example :
    (get 2 (prune_peers env 10 book).peers ≡ some known) ↔ Stays env 10 known
unfolding get contains
prune_peers-Stays_example = (prune_peers-Stays env 10 2 book known (refl, tt) refl).0

addresses-failed_own_example : get addr_2 (failed_own env 2 addr_2 sim_open known).addresses ≡ none
unfolding get is_to_probe Multiaddr-discrete Protocol-discrete ℕ_discrete
addresses-failed_own_example = addresses-failed_own env 2 addr_2 addr_2 sim_open known

abbrev error : TransportError
error = record { kind = other none; shown = "e"; source = none; debug = "d" }

redial_chain_example :
    redial_chain env none (sim_open ∷ sim_open ∷ []) (own_handler addr_2 1 false) book ≤ 1
redial_chain_example = redial_chain-le env none (sim_open ∷ sim_open ∷ []) addr_2 1 false book

abbrev first_dial : Dial
first_dial = dial_to 2 always addr (own_handler addr_2 11 false)

abbrev queued : AddressBook
queued = record book { actions = first_dial ∷ [] }

polls_in_order_example : (poll_times 1 [] (λ n. none) queued).0 ≡ some first_dial ∷ []
polls_in_order_example = (polls_in_order (first_dial ∷ []) [] (λ n. none) queued [] refl).0

abbrev identity : IdentifyInfo
identity = record {
  protocol_version = "p";
  agent_version = "a";
  protocols = [];
  listen_addrs = addr ∷ [];
}

set_info_example : All (Avoids []) (set_info env 2 identity queued).actions
unfolding contains
set_info_example = set_info-Avoids env 2 identity queued ((refl, tt), tt)

abbrev point : ConnectedPoint
point = ConnectedPoint.dialer addr_2

connection-established_example :
    is_connected 2 (inject_connection_established env 2 point 0 book) ≡ true
connection-established_example = (connection-established env 2 point 0 book).0

connection-closed_example : connection 2 addr_2 (connection_closed env 2 point 0 none book) ≡ none
unfolding get normalize_connected_point normalize_addr Multiaddr-discrete Protocol-discrete
    ℕ_discrete
connection-closed_example = connection-closed env 2 point 0 none book 2 addr_2
