-- ===== src/Service/BookCalls.antt =====
-- The address book in the runs of `poll_swarm` of src/net/mod.rs: which calls of the book each swarm
-- event makes, and that the handlers make these.
use mathlib.Core.Path.{subst}
use ipfs_embed.Common.{
  ℕ, ◌≡◌, refl, sym, ap, String, Bool, true, false, Option, none, some, List, [], ◌∷◌, arith,
  if◌then◌else◌, eqb, Bool-cases, Option-cases, inl, inr, ◌>>=◌,
}
use ipfs_embed.Multiaddr.{PeerId, Multiaddr}
use ipfs_embed.PeerInfo.{AddressSource}
use ipfs_embed.Events.{Env, Event}
use ipfs_embed.AddressBook
use ipfs_embed.AddressBook.{AddressBook}
use ipfs_embed.AddressBook.Steps.{Call, perform}
use ipfs_embed.Behaviour
use ipfs_embed.Behaviour.{
  QueryId, QueryChannel, Channel, Reply, Result, Done, ok, err, GossipEvent, NetworkBackend,
  NetworkError, Request, ask, add_discovered, with_peers, dial, inject_mdns_event,
  inject_ping_event, inject_id_event, MdnsEvent, PingResult, IdentifyEvent,
}
use ipfs_embed.Behaviour.Queries.{
  QueryResult, Outcome, done, failed, KademliaEvent, outbound_query_completed, inject_kad_event,
  inject_query_result, answer, bootstrapped, as_bootstrap, BitswapEvent, progress, complete,
  inject_bitswap_event, completed, send_to,
}
use ipfs_embed.Behaviour.Starting.{start_or}
use ipfs_embed.Behaviour.Topics.{
  GossipsubEvent, BroadcastEvent, inject_gossip_event, inject_broadcast_event, notify_subscribers,
  send_topic, unsubscribe,
}
use ipfs_embed.Service.{SwarmEvent, handle_event}

-- A call of the book: one of AddressBook.Steps, or a measured round trip.
pub data BookCall : Type 0 where
  plain : Call → BookCall
  round_trip : PeerId → Option ℕ → BookCall

abbrev pub result_calls : QueryResult → List BookCall
result_calls (QueryResult.bootstrap (done n)) =
    if eqb n 0 then plain (Call.notify Event.bootstrapped) ∷ [] else []
result_calls _ = []

abbrev pub discovered_calls : List (PeerId × Multiaddr) → List BookCall
discovered_calls [] = []
discovered_calls ((peer, a) ∷ l) =
    plain (Call.add_address peer a AddressSource.mdns) ∷ discovered_calls l

-- The calls that a swarm event makes, in order: a closed connection is taken out, a bootstrap without
-- peers left and a subscription are announced, discovered addresses are added, a ping and an
-- identify message are recorded.
abbrev pub event_calls : SwarmEvent → List BookCall
event_calls (SwarmEvent.connection_closed peer point n cause) =
    plain (Call.connection_closed peer point n cause) ∷ []
event_calls (SwarmEvent.kad (outbound_query_completed id q)) = result_calls q
event_calls (SwarmEvent.mdns (MdnsEvent.discovered l)) = discovered_calls l
event_calls (SwarmEvent.ping peer (PingResult.ping rtt)) = round_trip peer (some rtt) ∷ []
event_calls (SwarmEvent.ping peer PingResult.timeout) = round_trip peer none ∷ []
event_calls (SwarmEvent.ping peer (PingResult.other m)) = round_trip peer none ∷ []
event_calls (SwarmEvent.identify (IdentifyEvent.received peer info)) =
    plain (Call.set_info peer info) ∷ []
event_calls (SwarmEvent.gossipsub (GossipsubEvent.subscribed peer t)) =
    plain (Call.notify (Event.subscribed peer t)) ∷ []
event_calls (SwarmEvent.gossipsub (GossipsubEvent.unsubscribed peer t)) =
    plain (Call.notify (Event.unsubscribed peer t)) ∷ []
event_calls (SwarmEvent.broadcast (BroadcastEvent.subscribed peer (some t))) =
    plain (Call.notify (Event.subscribed peer t)) ∷ []
event_calls (SwarmEvent.broadcast (BroadcastEvent.unsubscribed peer (some t))) =
    plain (Call.notify (Event.unsubscribed peer t)) ∷ []
event_calls _ = []

-- The book after some calls; `none` is a panic in one of them.
abbrev pub performed : Env → List BookCall → AddressBook → Option AddressBook
performed env [] b = some b
performed env (plain k ∷ ks) b = performed env ks (perform env k b)
performed env (round_trip peer rtt ∷ ks) b = AddressBook.set_rtt env peer rtt b >>= performed env ks

-- From `s` to `t`, the book makes the calls.
abbrev pub Makes : Env → List BookCall → NetworkBackend → NetworkBackend → Type 0
Makes env ks s t = performed env ks s.peers ≡ some t.peers

abbrev pub MakesAll : Env → List BookCall → NetworkBackend → Option NetworkBackend → Type 0
MakesAll env ks s none = Unit
MakesAll env ks s (some t) = Makes env ks s t

pub ends_in : (b c : AddressBook) → c ≡ b → some b ≡ some c
ends_in b c e = ap some (sym e)

pub peers-if_ask :
    (b : Bool) (r : Request) (s : NetworkBackend) → (if b then ask r s else s).peers ≡ s.peers
peers-if_ask true r s = refl
peers-if_ask false r s = refl

peers-send_to :
    (o : Option Channel) (r : Reply) (s : NetworkBackend) → (send_to o r s).peers ≡ s.peers
peers-send_to none r s = refl
peers-send_to (some tx) r s = refl

peers-answer :
    (pattern : QueryChannel → Option Channel) (id : ℕ) (r : Reply) (s : NetworkBackend)
    → (answer pattern id r s).peers ≡ s.peers
unfolding answer
peers-answer pattern id r s = peers-send_to _ r _

pub peers-start_or :
    (q : QueryChannel) (tx : Channel) (error : String → NetworkError) (o : Outcome ℕ)
    (s : NetworkBackend)
    → (start_or q tx error o s).peers ≡ s.peers
peers-start_or q tx error (done id) s = refl
peers-start_or q tx error (failed m) s = refl

peers-completed :
    (o : Option QueryChannel) (r : Result Done) (s : NetworkBackend)
    → (completed o r s).peers ≡ s.peers
peers-completed none r s = refl
peers-completed (some (QueryChannel.get ch)) r s = refl
peers-completed (some (QueryChannel.sync ch)) r s = refl
peers-completed (some (QueryChannel.bootstrap ch)) r s = refl
peers-completed (some (QueryChannel.get_closest_peers ch)) r s = refl
peers-completed (some (QueryChannel.get_providers ch)) r s = refl
peers-completed (some (QueryChannel.start_providing ch)) r s = refl
peers-completed (some (QueryChannel.get_record ch)) r s = refl
peers-completed (some (QueryChannel.put_record ch)) r s = refl

peers-bitswap : (e : BitswapEvent) (s : NetworkBackend) → (inject_bitswap_event e s).peers ≡ s.peers
unfolding inject_bitswap_event
peers-bitswap (progress id missing) s = peers-send_to _ _ s
peers-bitswap (complete id r) s = peers-completed _ _ _

module _ (env : Env) where
  pub peers-add_address :
      (peer : PeerId) (a : Multiaddr) (source : AddressSource) (s : NetworkBackend)
      → perform env (Call.add_address peer a source) s.peers
        ≡ (Behaviour.add_address env peer a source s).peers
  unfolding Behaviour.add_address perform
  peers-add_address peer a source s =
      ap (AddressBook.add_address env peer a source)
        (sym (peers-if_ask s.protocols.kad (Request.kad_add_address peer a) s))

  discovered-Makes :
      (l : List (PeerId × Multiaddr)) (s : NetworkBackend)
      → Makes env (discovered_calls l) s (add_discovered env l s)
  unfolding add_discovered
  discovered-Makes [] s = refl
  discovered-Makes ((peer, a) ∷ l) s =
      subst
        (λ b.
          performed env (discovered_calls l) b ≡ some (add_discovered env ((peer, a) ∷ l) s).peers)
        (sym (peers-add_address peer a AddressSource.mdns s))
        (discovered-Makes l (Behaviour.add_address env peer a AddressSource.mdns s))

  bootstrapped-Makes :
      (id n : ℕ) (s : NetworkBackend)
      → Makes env (result_calls (QueryResult.bootstrap (done n))) s (bootstrapped env id n s)
  unfolding bootstrapped perform
  bootstrapped-Makes id n s = elim (Bool-cases (eqb n 0)) [
    | inl k ↦
        rw (k, if◌then◌else◌)
          (ends_in _ _ (
            ap (AddressBook.notify env Event.bootstrapped) (
              peers-answer as_bootstrap id (Reply.unit (ok tt))
                (record s { bootstrap_complete = true }))))
    | inr k ↦ rw (k, if◌then◌else◌) (refl)
  ]

  result-Makes :
      (id : ℕ) (q : QueryResult) (s : NetworkBackend)
      → Makes env (result_calls q) s (inject_query_result env id q s)
  unfolding inject_query_result
  result-Makes id (QueryResult.bootstrap (done n)) s = bootstrapped-Makes id n s
  result-Makes id (QueryResult.bootstrap (failed e)) s = ends_in s.peers _ (peers-answer _ id _ s)
  result-Makes id (QueryResult.get_closest_peers (done x)) s =
      ends_in s.peers _ (peers-answer _ id _ s)
  result-Makes id (QueryResult.get_closest_peers (failed e)) s =
      ends_in s.peers _ (peers-answer _ id _ s)
  result-Makes id (QueryResult.get_providers (done x)) s = ends_in s.peers _ (peers-answer _ id _ s)
  result-Makes id (QueryResult.get_providers (failed e)) s =
      ends_in s.peers _ (peers-answer _ id _ s)
  result-Makes id (QueryResult.start_providing (done x)) s =
      ends_in s.peers _ (peers-answer _ id _ s)
  result-Makes id (QueryResult.start_providing (failed e)) s =
      ends_in s.peers _ (peers-answer _ id _ s)
  result-Makes id (QueryResult.get_record (done x)) s = ends_in s.peers _ (peers-answer _ id _ s)
  result-Makes id (QueryResult.get_record (failed e)) s = ends_in s.peers _ (peers-answer _ id _ s)
  result-Makes id (QueryResult.put_record (done x)) s = ends_in s.peers _ (peers-answer _ id _ s)
  result-Makes id (QueryResult.put_record (failed e)) s = ends_in s.peers _ (peers-answer _ id _ s)
  result-Makes id (QueryResult.republish_provider q) s = refl
  result-Makes id (QueryResult.republish_record q) s = refl

  -- The book is told first, then the subscribers of the topic.
  peers-notify :
      (topic : String) (e : GossipEvent) (s : NetworkBackend)
      → (notify_subscribers env topic e s).peers ≡ s.peers
  unfolding notify_subscribers send_topic unsubscribe
  peers-notify topic e s = ground arith

  notify-Makes :
      (topic : String) (g : GossipEvent) (e : Event) (s : NetworkBackend)
      → Makes env
          (plain (Call.notify e) ∷ [])
          s
          (notify_subscribers env topic g (Behaviour.on_peers (AddressBook.notify env e) s))
  unfolding perform
  notify-Makes topic g e s =
      ends_in _ _ (peers-notify topic g (Behaviour.on_peers (AddressBook.notify env e) s))

  gossip-Makes :
      (e : GossipsubEvent) (s : NetworkBackend)
      → Makes env (event_calls (SwarmEvent.gossipsub e)) s (inject_gossip_event env e s)
  unfolding inject_gossip_event
  gossip-Makes (GossipsubEvent.message m t source from) s =
      ends_in s.peers _ (peers-notify t (GossipEvent.message _ m) s)
  gossip-Makes (GossipsubEvent.subscribed peer t) s =
      notify-Makes t (GossipEvent.subscribed peer) (Event.subscribed peer t) s
  gossip-Makes (GossipsubEvent.unsubscribed peer t) s =
      notify-Makes t (GossipEvent.unsubscribed peer) (Event.unsubscribed peer t) s
  gossip-Makes (GossipsubEvent.gossipsub_not_supported peer) s = refl

  broadcast-Makes :
      (e : BroadcastEvent) (s : NetworkBackend)
      → MakesAll env (event_calls (SwarmEvent.broadcast e)) s (inject_broadcast_event env e s)
  unfolding inject_broadcast_event
  broadcast-Makes (BroadcastEvent.received peer none m) s = tt
  broadcast-Makes (BroadcastEvent.received peer (some t) m) s =
      ends_in s.peers _ (peers-notify t (GossipEvent.message peer m) s)
  broadcast-Makes (BroadcastEvent.subscribed peer none) s = refl
  broadcast-Makes (BroadcastEvent.subscribed peer (some t)) s =
      notify-Makes t (GossipEvent.subscribed peer) (Event.subscribed peer t) s
  broadcast-Makes (BroadcastEvent.unsubscribed peer none) s = refl
  broadcast-Makes (BroadcastEvent.unsubscribed peer (some t)) s =
      notify-Makes t (GossipEvent.unsubscribed peer) (Event.unsubscribed peer t) s

  set_rtt-Makes :
      (peer : PeerId) (rtt : Option ℕ) (s : NetworkBackend)
      → MakesAll env
          (round_trip peer rtt ∷ [])
          s
          (with_peers (AddressBook.set_rtt env peer rtt s.peers) s)
  set_rtt-Makes peer rtt s = elim (Option-cases (AddressBook.set_rtt env peer rtt s.peers)) [
    | inl e ↦ rw (e, with_peers) tt
    | inr (b, e) ↦ rw (e, with_peers) (rw e refl)
  ]

  pub event-Makes :
      (e : SwarmEvent) (s : NetworkBackend) → MakesAll env (event_calls e) s (handle_event env e s)
  unfolding handle_event Behaviour.connection_closed inject_kad_event inject_mdns_event
      inject_ping_event inject_id_event perform
  event-Makes (SwarmEvent.connection_closed peer point n cause) s = ends_in _ _ refl
  event-Makes (SwarmEvent.kad (outbound_query_completed id q)) s = result-Makes id q s
  event-Makes (SwarmEvent.kad KademliaEvent.other) s = refl
  event-Makes (SwarmEvent.mdns (MdnsEvent.discovered l)) s = discovered-Makes l s
  event-Makes (SwarmEvent.mdns (MdnsEvent.expired l)) s = refl
  event-Makes (SwarmEvent.ping peer (PingResult.ping rtt)) s = set_rtt-Makes peer (some rtt) s
  event-Makes (SwarmEvent.ping peer PingResult.pong) s = refl
  event-Makes (SwarmEvent.ping peer PingResult.timeout) s = set_rtt-Makes peer none s
  event-Makes (SwarmEvent.ping peer PingResult.unsupported) s = refl
  event-Makes (SwarmEvent.ping peer (PingResult.other m)) s = set_rtt-Makes peer none s
  event-Makes (SwarmEvent.identify (IdentifyEvent.received peer info)) s = ends_in _ _ refl
  event-Makes (SwarmEvent.identify (IdentifyEvent.sent peer)) s = refl
  event-Makes (SwarmEvent.identify (IdentifyEvent.pushed peer)) s = refl
  event-Makes (SwarmEvent.identify (IdentifyEvent.error peer)) s = refl
  event-Makes (SwarmEvent.bitswap e) s = ends_in s.peers _ (peers-bitswap e s)
  event-Makes (SwarmEvent.gossipsub e) s = gossip-Makes e s
  event-Makes (SwarmEvent.broadcast e) s = broadcast-Makes e s
  event-Makes SwarmEvent.other s = refl
