-- ===== src/AddressBook/Invariant.antt =====
-- The operations of src/net/peers.rs and the invariant of Keys.
use mathlib.Core.Path.{subst}
use ipfs_embed.Common.{
  ℕ, ◌≡◌, refl, sym, Option, none, some, List, [], ◌∷◌, nat_eq, arith, Option-cases, inl, inr,
}
use ipfs_embed.Common.Assoc.{get}
use ipfs_embed.Multiaddr.{PeerId, Multiaddr, multiaddr_eq}
use ipfs_embed.PeerInfo.{
  PeerInfo, AddressSource, Time, Direction, direction_of, ingest_address, push_failure,
  is_to_translate,
}
use ipfs_embed.PeerInfo
use ipfs_embed.Dialing.{Dial}
use ipfs_embed.Events.{Env}
use ipfs_embed.AddressBook.{AddressBook, new, swarm_events, notify, dial, set_rtt}
use ipfs_embed.AddressBook.Callbacks.{
  inject_new_listener, inject_new_listen_addr, inject_expired_listen_addr, inject_listener_error,
  inject_listener_closed, inject_new_external_addr, inject_expired_external_addr, poll,
  poll_actions, refreshed,
}
use ipfs_embed.AddressBook.Keys.{IsValid, InfoIsValid, PeersAreValid, get-IsValid, insert-AreValid}
use ipfs_embed.AddressBook.Steps.{Call, perform, call, ping, Reachable, start, next}
use ipfs_embed.AddressBook.Kept.{
  dial_address-IsValid, add_address-IsValid, remove_address-IsValid, prune-IsValid, closed-IsValid,
  set_info-IsValid, established-IsValid, change-IsValid,
}
use ipfs_embed.AddressBook.Lost.{failure-IsValid}

peers-poll_actions :
    (r : Option ℕ) (ds : List Dial) (b : AddressBook) → (poll_actions r ds b).1.peers ≡ b.peers
peers-poll_actions none [] b = refl
peers-poll_actions (some i) [] b = ground arith
peers-poll_actions r (d ∷ ds) b = refl

peers-poll : (x : List Multiaddr) (r : Option ℕ) (b : AddressBook) → (poll x r b).1.peers ≡ b.peers
unfolding poll
peers-poll x r b = ground (arith, peers-poll_actions r (refreshed x b).actions (refreshed x b))

-- Every call keeps the invariant.
pub perform-IsValid :
    (env : Env) (k : Call) (b : AddressBook) → IsValid b → IsValid (perform env k b)
unfolding perform
perform-IsValid env (Call.swarm_events tx) b v = unfold swarm_events in v
perform-IsValid env (Call.notify e) b v = unfold notify in v
perform-IsValid env (Call.dial p) b v = unfold dial in ground arith
perform-IsValid env (Call.dial_address p a) b v = dial_address-IsValid env p a b v
perform-IsValid env (Call.remove_address p a) b v = remove_address-IsValid env p a b v
perform-IsValid env (Call.add_address p a s) b v = add_address-IsValid env p a s b v
perform-IsValid env (Call.prune_peers n) b v = prune-IsValid env n b v
perform-IsValid env (Call.connection_closed p cp n e) b v = closed-IsValid env p cp n e b v
perform-IsValid env (Call.set_info p i) b v = set_info-IsValid env p i b v
perform-IsValid env (Call.connection_established p cp n) b v = established-IsValid env p cp n b v
perform-IsValid env (Call.address_change p o n) b v = change-IsValid env p o n b v
perform-IsValid env (Call.dial_failure p d e) b v = failure-IsValid env p d e b v
perform-IsValid env (Call.new_listener id) b v = unfold inject_new_listener in v
perform-IsValid env (Call.listener_closed id) b v = unfold inject_listener_closed in v
perform-IsValid env (Call.new_listen_addr id a) b v = unfold inject_new_listen_addr in ground arith
perform-IsValid env (Call.expired_listen_addr id a) b v =
    unfold inject_expired_listen_addr in ground arith
perform-IsValid env (Call.listener_error id e) b v = unfold inject_listener_error in v
perform-IsValid env (Call.new_external_addr a) b v = unfold inject_new_external_addr in v
perform-IsValid env (Call.expired_external_addr a) b v = unfold inject_expired_external_addr in v
perform-IsValid env (Call.poll x r) b v = subst PeersAreValid (sym (peers-poll x r b)) v

info-set_rtt-IsValid :
    (rtt : Option ℕ) (info info' : PeerInfo)
    → PeerInfo.set_rtt rtt info ≡ some info'
    → InfoIsValid info
    → InfoIsValid info'
unfolding PeerInfo.set_rtt
info-set_rtt-IsValid none info info' e v = ground arith
info-set_rtt-IsValid (some d) info info' e v = ground arith

set_rtt-IsValid :
    (env : Env) (p : PeerId) (rtt : Option ℕ) (b c : AddressBook)
    → set_rtt env p rtt b ≡ some c
    → IsValid b
    → IsValid c
unfolding set_rtt notify
set_rtt-IsValid env p rtt b c e v = elim (Option-cases (get p b.peers)) [
  | inl k ↦ subst IsValid (some_inj (rw (k, set_rtt) at e)) v
  | inr (info, k) ↦ elim (Option-cases (PeerInfo.set_rtt rtt info)) [
    | inl m ↦ absurd_none (rw (k, m, set_rtt) at e)
    | inr (info', m) ↦
        let known = info-set_rtt-IsValid rtt info info' m (get-IsValid p info b.peers v k) in
        let all = insert-AreValid p info' b.peers v known in
        subst IsValid (some_inj (rw (k, m, set_rtt) at e)) (unfold notify in all)
  ]
]
  where
    some_inj : {x y : AddressBook} → some x ≡ some y → x ≡ y
    some_inj q = cc

    absurd_none : none ≡ some c → IsValid c
    absurd_none q = cc

-- In every reachable book each peer has one record, every address and connection in it carries a
-- peer id, and it holds at most ten failures.
pub Reachable-IsValid : (b : AddressBook) → Reachable b → IsValid b
unfolding new
Reachable-IsValid b (start p x y z) = record { records = tt; one_each = tt }
Reachable-IsValid b (next {b = a} r (call env k e)) =
    subst IsValid (sym e) (perform-IsValid env k a (Reachable-IsValid a r))
Reachable-IsValid b (next {b = a} r (ping env p rtt e)) =
    set_rtt-IsValid env p rtt a b e (Reachable-IsValid a r)
