-- ===== src/Service/Kept.antt =====
-- What every input of `poll_swarm` of src/net/mod.rs keeps.
use ipfs_embed.Common.{
  ℕ, string_eq, ◌≡◌, ◌∙◌, sym, ap, String, Bool, true, false, ◌||◌, Option, none, some, arith, eqb,
  is_none, if◌then◌else◌, Bool-cases, inl, inr,
}
use ipfs_embed.Common.Assoc.{contains_key}
use ipfs_embed.Events.{Env, Event}
use ipfs_embed.AddressBook
use ipfs_embed.Behaviour
use ipfs_embed.Behaviour.{
  QueryId, query_id_eq, QueryChannel, Channel, Reply, Result, ok, err, GossipEvent, Protocols,
  NetworkBackend, NetworkError, Request, ask, dial, inject_mdns_event, inject_ping_event,
  inject_id_event, MdnsEvent, PingResult, IdentifyEvent,
}
use ipfs_embed.Behaviour.Queries.{
  QueryResult, done, failed, KademliaEvent, outbound_query_completed, inject_kad_event,
  inject_query_result, answer, bootstrapped, as_bootstrap,
}
use ipfs_embed.Behaviour.Topics
use ipfs_embed.Behaviour.Topics.{
  Published, GossipsubEvent, BroadcastEvent, inject_gossip_event, inject_broadcast_event,
  notify_subscribers, send_topic,
}
use ipfs_embed.Service.{NetworkCommand, SwarmEvent, Input, event, command, handle_event}
use ipfs_embed.Service.Untouched.{
  Wire, Holds, Same, Same-refl, send_to-Same, bitswap-Same, discovered-Same,
}
use ipfs_embed.Service.Matched.{IsMatched, AllHeard, notify-IsMatched, notify-AllHeard}

-- The end of a bootstrap, and a subscription that gossipsub does not refuse.
abbrev pub ends_bootstrap : Input → Bool
ends_bootstrap
      (event env (SwarmEvent.kad (outbound_query_completed id (QueryResult.bootstrap (done n))))) =
    eqb n 0
ends_bootstrap _ = false

abbrev pub is_accepted : Input → Bool
is_accepted (command env (NetworkCommand.subscribe topic tx) a) = is_none a.refused
is_accepted _ = true

module _ (w : Wire) (topic : String) where
  pub record Kept (ends accepted : Bool) (s t : NetworkBackend) : Type 0 where
    pub flag : t.bootstrap_complete ≡ (ends || s.bootstrap_complete)
    pub wires : t.protocols ≡ s.protocols
    pub heard : AllHeard s → AllHeard t
    pub matched : accepted ≡ true → IsMatched w topic s → IsMatched w topic t

  pub Same-Kept :
      (accepted : Bool) (s t : NetworkBackend) → Same w topic s t → Kept false accepted s t
  Same-Kept accepted s t e = record {
    flag = e.0;
    wires = e.1.1.0;
    heard = λ h. rw (e.1.0) h;
    matched = λ _ m on. e.1.1.1 ∙ m (rw (e.1.1.0) at on) ∙ ap (contains_key topic) (sym (e.1.0));
  }

  answer-Same :
      (pattern : QueryChannel → Option Channel) (id : ℕ) (r : Reply) (s : NetworkBackend)
      → Same w topic s (answer pattern id r s)
  unfolding answer
  answer-Same pattern id r s = send_to-Same w topic _ r _

  answer-Kept :
      (pattern : QueryChannel → Option Channel) (id : ℕ) (r : Reply) (s : NetworkBackend)
      → Kept false true s (answer pattern id r s)
  answer-Kept pattern id r s = Same-Kept true s (answer pattern id r s) (answer-Same pattern id r s)

  bootstrapped-Kept :
      (env : Env) (id n : ℕ) (s : NetworkBackend) → Kept (eqb n 0) true s (bootstrapped env id n s)
  unfolding bootstrapped
  bootstrapped-Kept env id n s = elim (Bool-cases (eqb n 0)) [
    | inl k ↦
        rw (k, if◌then◌else◌)
          (let known =
              answer-Kept as_bootstrap id (Reply.unit (ok tt))
                (record s { bootstrap_complete = true }) in
            record {
              flag = known.flag;
              wires = known.wires;
              heard = known.heard;
              matched = known.matched;
            })
    | inr k ↦ rw (k, if◌then◌else◌) (Same-Kept true s s (Same-refl w topic s))
  ]

  result-Kept :
      (env : Env) (id : ℕ) (r : QueryResult) (s : NetworkBackend)
      → Kept
          (ends_bootstrap (event env (SwarmEvent.kad (outbound_query_completed id r))))
          true
          s
          (inject_query_result env id r s)
  unfolding inject_query_result
  result-Kept env id (QueryResult.bootstrap (done n)) s = bootstrapped-Kept env id n s
  result-Kept env id (QueryResult.bootstrap (failed e)) s = answer-Kept _ id _ s
  result-Kept env id (QueryResult.get_closest_peers (done x)) s = answer-Kept _ id _ s
  result-Kept env id (QueryResult.get_closest_peers (failed e)) s = answer-Kept _ id _ s
  result-Kept env id (QueryResult.get_providers (done x)) s = answer-Kept _ id _ s
  result-Kept env id (QueryResult.get_providers (failed e)) s = answer-Kept _ id _ s
  result-Kept env id (QueryResult.start_providing (done x)) s = answer-Kept _ id _ s
  result-Kept env id (QueryResult.start_providing (failed e)) s = answer-Kept _ id _ s
  result-Kept env id (QueryResult.get_record (done x)) s = answer-Kept _ id _ s
  result-Kept env id (QueryResult.get_record (failed e)) s = answer-Kept _ id _ s
  result-Kept env id (QueryResult.put_record (done x)) s = answer-Kept _ id _ s
  result-Kept env id (QueryResult.put_record (failed e)) s = answer-Kept _ id _ s
  result-Kept env id (QueryResult.republish_provider r) s = Same-Kept true s s (Same-refl w topic s)
  result-Kept env id (QueryResult.republish_record r) s = Same-Kept true s s (Same-refl w topic s)

  module _ (env : Env) (t : String) (e : GossipEvent) where
    flag-notify :
        (s : NetworkBackend)
        → (notify_subscribers env t e s).bootstrap_complete ≡ s.bootstrap_complete
    unfolding notify_subscribers send_topic Topics.unsubscribe
    flag-notify s = ground arith

    protocols-notify : (s : NetworkBackend) → (notify_subscribers env t e s).protocols ≡ s.protocols
    unfolding notify_subscribers send_topic Topics.unsubscribe
    protocols-notify s = ground arith

    -- The book is told first; it is no part of what is kept.
    notify-Kept :
        (s : NetworkBackend) (f : AddressBook.AddressBook → AddressBook.AddressBook)
        → Kept false true s (notify_subscribers env t e (Behaviour.on_peers f s))
    notify-Kept s f = record {
      flag = flag-notify (Behaviour.on_peers f s);
      wires = protocols-notify (Behaviour.on_peers f s);
      heard = notify-AllHeard env t e (Behaviour.on_peers f s);
      matched = λ _. notify-IsMatched w topic env t e (Behaviour.on_peers f s);
    }

  gossip-Kept :
      (env : Env) (e : GossipsubEvent) (s : NetworkBackend)
      → Kept false true s (inject_gossip_event env e s)
  unfolding inject_gossip_event
  gossip-Kept env (GossipsubEvent.message m t source from) s =
      notify-Kept env t (GossipEvent.message _ m) s (λ b. b)
  gossip-Kept env (GossipsubEvent.subscribed peer t) s =
      notify-Kept env t (GossipEvent.subscribed peer) s
        (AddressBook.notify env (Event.subscribed peer t))
  gossip-Kept env (GossipsubEvent.unsubscribed peer t) s =
      notify-Kept env t (GossipEvent.unsubscribed peer) s
        (AddressBook.notify env (Event.unsubscribed peer t))
  gossip-Kept env (GossipsubEvent.gossipsub_not_supported peer) s =
      Same-Kept true s s (Same-refl w topic s)

  broadcast-Kept :
      (env : Env) (e : BroadcastEvent) (s : NetworkBackend)
      → Holds (Kept false true s) (inject_broadcast_event env e s)
  unfolding inject_broadcast_event
  broadcast-Kept env (BroadcastEvent.received peer none m) s = tt
  broadcast-Kept env (BroadcastEvent.received peer (some t) m) s =
      notify-Kept env t (GossipEvent.message peer m) s (λ b. b)
  broadcast-Kept env (BroadcastEvent.subscribed peer none) s =
      Same-Kept true s s (Same-refl w topic s)
  broadcast-Kept env (BroadcastEvent.subscribed peer (some t)) s =
      notify-Kept env t (GossipEvent.subscribed peer) s
        (AddressBook.notify env (Event.subscribed peer t))
  broadcast-Kept env (BroadcastEvent.unsubscribed peer none) s =
      Same-Kept true s s (Same-refl w topic s)
  broadcast-Kept env (BroadcastEvent.unsubscribed peer (some t)) s =
      notify-Kept env t (GossipEvent.unsubscribed peer) s
        (AddressBook.notify env (Event.unsubscribed peer t))

  peers-Kept :
      (o : Option AddressBook.AddressBook) (s : NetworkBackend)
      → Holds (Kept false true s) (Behaviour.with_peers o s)
  peers-Kept none s = tt
  peers-Kept (some b) s = Same-Kept true s _ (Same-refl w topic s)

  pub event-Kept :
      (env : Env) (e : SwarmEvent) (s : NetworkBackend)
      → Holds (Kept (ends_bootstrap (event env e)) true s) (handle_event env e s)
  unfolding handle_event Behaviour.connection_closed inject_kad_event inject_mdns_event
      inject_ping_event inject_id_event
  event-Kept env (SwarmEvent.connection_closed peer point n cause) s =
      Same-Kept true s _ (Same-refl w topic s)
  event-Kept env (SwarmEvent.kad (outbound_query_completed id r)) s = result-Kept env id r s
  event-Kept env (SwarmEvent.kad KademliaEvent.other) s = Same-Kept true s _ (Same-refl w topic s)
  event-Kept env (SwarmEvent.mdns (MdnsEvent.discovered l)) s =
      Same-Kept true s _ (discovered-Same w topic env l s)
  event-Kept env (SwarmEvent.mdns (MdnsEvent.expired l)) s =
      Same-Kept true s _ (Same-refl w topic s)
  event-Kept env (SwarmEvent.ping peer (PingResult.ping rtt)) s =
      peers-Kept (AddressBook.set_rtt env peer (some rtt) s.peers) s
  event-Kept env (SwarmEvent.ping peer PingResult.pong) s = Same-Kept true s _ (Same-refl w topic s)
  event-Kept env (SwarmEvent.ping peer PingResult.timeout) s =
      peers-Kept (AddressBook.set_rtt env peer none s.peers) s
  event-Kept env (SwarmEvent.ping peer PingResult.unsupported) s =
      Same-Kept true s _ (Same-refl w topic s)
  event-Kept env (SwarmEvent.ping peer (PingResult.other m)) s =
      peers-Kept (AddressBook.set_rtt env peer none s.peers) s
  event-Kept env (SwarmEvent.identify (IdentifyEvent.received peer info)) s =
      Same-Kept true s _ (Same-refl w topic s)
  event-Kept env (SwarmEvent.identify (IdentifyEvent.sent peer)) s =
      Same-Kept true s _ (Same-refl w topic s)
  event-Kept env (SwarmEvent.identify (IdentifyEvent.pushed peer)) s =
      Same-Kept true s _ (Same-refl w topic s)
  event-Kept env (SwarmEvent.identify (IdentifyEvent.error peer)) s =
      Same-Kept true s _ (Same-refl w topic s)
  event-Kept env (SwarmEvent.bitswap e) s = Same-Kept true s _ (bitswap-Same w topic e s)
  event-Kept env (SwarmEvent.gossipsub e) s = gossip-Kept env e s
  event-Kept env (SwarmEvent.broadcast e) s = broadcast-Kept env e s
  event-Kept env SwarmEvent.other s = Same-Kept true s _ (Same-refl w topic s)
