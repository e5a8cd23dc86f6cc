-- ===== src/Service/Quiet.antt =====
-- The events of `poll_swarm` of src/net/mod.rs, and the answers that they send.
use ipfs_embed.Common.{
  ℕ, ◌+◌, ◌≤◌, ◌≡◌, ◌∙◌, refl, String, Option, none, some, List, [], ◌∷◌, eqb, arith, ◌>>=◌,
}
use ipfs_embed.Common.Assoc.{get}
use ipfs_embed.Multiaddr.{PeerId, Multiaddr}
use ipfs_embed.PeerInfo.{AddressSource}
use ipfs_embed.Events.{Env, Event}
use ipfs_embed.AddressBook
use ipfs_embed.Behaviour
use ipfs_embed.Behaviour.{
  QueryId, query_id_eq, QueryChannel, Channel, Reply, GossipEvent, NetworkBackend, dial,
  add_address, add_discovered, inject_mdns_event, inject_ping_event, inject_id_event, MdnsEvent,
  PingResult, IdentifyEvent, with_peers,
}
use ipfs_embed.Behaviour.Queries.{
  KademliaEvent, BitswapEvent, inject_kad_event, inject_bitswap_event, completed, remove_query,
  outbound_query_completed, progress, complete, send_to, as_sync, as_result,
}
use ipfs_embed.Behaviour.Topics.{
  GossipsubEvent, BroadcastEvent, inject_gossip_event, inject_broadcast_event, notify_subscribers,
  send_topic, unsubscribe,
}
use ipfs_embed.Service.{
  NetworkCommand, SwarmEvent, Input, event, command, handle_event, add_initial,
}
use ipfs_embed.Service.Counting.{count, answers, waiting, finals-append, pending-remove, result-le}

module _ (c : Channel) where
  -- How often an input hands in a channel for a final reply.
  abbrev pub handed : Input → ℕ
  handed (event env e) = 0
  handed (command env (NetworkCommand.listen_on addr tx) a) = count c (eqb tx c)
  handed (command env (NetworkCommand.bootstrap initial tx) a) = count c (eqb tx c)
  handed (command env (NetworkCommand.providers key tx) a) = count c (eqb tx c)
  handed (command env (NetworkCommand.provide key tx) a) = count c (eqb tx c)
  handed (command env (NetworkCommand.get_record key tx) a) = count c (eqb tx c)
  handed (command env (NetworkCommand.put_record item tx) a) = count c (eqb tx c)
  handed (command env (NetworkCommand.subscribe topic tx) a) = count c (eqb tx c)
  handed (command env (NetworkCommand.publish topic msg tx) a) = count c (eqb tx c)
  handed (command env (NetworkCommand.broadcast topic msg tx) a) = count c (eqb tx c)
  handed (command env (NetworkCommand.get cid from tx) a) =
      count c (eqb tx c) + count c (eqb a.channel c)
  handed (command env (NetworkCommand.sync cid from missing tx) a) =
      count c (eqb tx c) + count c (eqb a.channel c)
  handed (command env (NetworkCommand.swarm_events tx) a) = count c (eqb tx c)
  handed (command env _ a) = 0

  abbrev pub handed_all : List Input → ℕ
  handed_all [] = 0
  handed_all (i ∷ is) = handed i + handed_all is

  abbrev pub Within : ℕ → Option NetworkBackend → Type 0
  Within n none = Unit
  Within n (some t) = answers c t ≤ n

  pub with_peers-Within :
      (o : Option AddressBook.AddressBook) (s : NetworkBackend)
      → Within (answers c s) (with_peers o s)
  with_peers-Within none s = tt
  with_peers-Within (some b) s = ground arith

  completed-le :
      (o : Option QueryChannel) (r : Behaviour.Result Behaviour.Done) (s : NetworkBackend)
      → answers c (completed o r s) ≤ answers c s + waiting c o
  completed-le none r s = ground arith
  completed-le (some (QueryChannel.get ch)) r s =
      ground (arith, finals-append c s.replies ch (Reply.unit r))
  completed-le (some (QueryChannel.sync ch)) r s =
      ground (arith, finals-append c s.replies ch (Reply.complete r))
  completed-le (some (QueryChannel.bootstrap ch)) r s = ground arith
  completed-le (some (QueryChannel.get_closest_peers ch)) r s = ground arith
  completed-le (some (QueryChannel.get_providers ch)) r s = ground arith
  completed-le (some (QueryChannel.start_providing ch)) r s = ground arith
  completed-le (some (QueryChannel.get_record ch)) r s = ground arith
  completed-le (some (QueryChannel.put_record ch)) r s = ground arith

  progress-le :
      (o : Option QueryChannel) (missing : ℕ) (s : NetworkBackend)
      → answers c (send_to (o >>= as_sync) (Reply.progress missing) s) ≤ answers c s
  progress-le none missing s = ground arith
  progress-le (some (QueryChannel.sync ch)) missing s =
      ground (arith, finals-append c s.replies ch (Reply.progress missing))
  progress-le (some (QueryChannel.get ch)) missing s = ground arith
  progress-le (some (QueryChannel.bootstrap ch)) missing s = ground arith
  progress-le (some (QueryChannel.get_closest_peers ch)) missing s = ground arith
  progress-le (some (QueryChannel.get_providers ch)) missing s = ground arith
  progress-le (some (QueryChannel.start_providing ch)) missing s = ground arith
  progress-le (some (QueryChannel.get_record ch)) missing s = ground arith
  progress-le (some (QueryChannel.put_record ch)) missing s = ground arith

  bitswap-le :
      (e : BitswapEvent) (s : NetworkBackend) → answers c (inject_bitswap_event e s) ≤ answers c s
  unfolding inject_bitswap_event
  bitswap-le (progress id missing) s = progress-le (get (QueryId.bitswap id) s.queries) missing s
  bitswap-le (complete id result) s =
      let q = get (QueryId.bitswap id) s.queries in
      ground (
        arith,
        pending-remove c (QueryId.bitswap id) s.queries,
        completed-le q (as_result Behaviour.NetworkError.bitswap_failed result)
            (remove_query (QueryId.bitswap id) s),
      )

  module _ (env : Env) where
    notify-same :
        (topic : String) (e : GossipEvent) (s : NetworkBackend)
        → answers c (notify_subscribers env topic e s) ≡ answers c s
    unfolding notify_subscribers send_topic unsubscribe
    notify-same topic e s = ground arith

    gossip-same :
        (e : GossipsubEvent) (s : NetworkBackend)
        → answers c (inject_gossip_event env e s) ≡ answers c s
    unfolding inject_gossip_event
    gossip-same (GossipsubEvent.message m topic source from) s =
        notify-same topic (GossipEvent.message _ m) s
    gossip-same (GossipsubEvent.subscribed peer topic) s =
        notify-same topic (GossipEvent.subscribed peer) _
    gossip-same (GossipsubEvent.unsubscribed peer topic) s =
        notify-same topic (GossipEvent.unsubscribed peer) _
    gossip-same (GossipsubEvent.gossipsub_not_supported peer) s = refl

    broadcast-Within :
        (e : BroadcastEvent) (s : NetworkBackend)
        → Within (answers c s) (inject_broadcast_event env e s)
    unfolding inject_broadcast_event
    broadcast-Within (BroadcastEvent.received peer none m) s = tt
    broadcast-Within (BroadcastEvent.received peer (some topic) m) s =
        ground (arith, notify-same topic (GossipEvent.message peer m) s)
    broadcast-Within (BroadcastEvent.subscribed peer none) s = ground arith
    broadcast-Within (BroadcastEvent.subscribed peer (some topic)) s =
        let known =
          notify-same topic (GossipEvent.subscribed peer)
            (Behaviour.on_peers (AddressBook.notify env (Event.subscribed peer topic)) s) in
        ground (arith, known)
    broadcast-Within (BroadcastEvent.unsubscribed peer none) s = ground arith
    broadcast-Within (BroadcastEvent.unsubscribed peer (some topic)) s =
        let known =
          notify-same topic (GossipEvent.unsubscribed peer)
            (Behaviour.on_peers (AddressBook.notify env (Event.unsubscribed peer topic)) s) in
        ground (arith, known)

    pub add_address-same :
        (peer : PeerId) (addr : Multiaddr) (source : AddressSource) (s : NetworkBackend)
        → answers c (add_address env peer addr source s) ≡ answers c s
    unfolding add_address
    add_address-same peer addr source s = ground arith

    discovered-same :
        (l : List (PeerId × Multiaddr)) (s : NetworkBackend)
        → answers c (add_discovered env l s) ≡ answers c s
    unfolding add_discovered
    discovered-same [] s = refl
    discovered-same ((peer, addr) ∷ l) s =
        discovered-same l (add_address env peer addr AddressSource.mdns s)
        ∙ add_address-same peer addr AddressSource.mdns s

    pub initial-same :
        (l : List (PeerId × Multiaddr)) (s : NetworkBackend)
        → answers c (add_initial env l s) ≡ answers c s
    unfolding add_initial dial
    initial-same [] s = refl
    initial-same ((peer, addr) ∷ l) s =
        initial-same l (dial peer (add_address env peer addr AddressSource.user s))
        ∙ add_address-same peer addr AddressSource.user s

    pub event-Within :
        (e : SwarmEvent) (s : NetworkBackend) → Within (answers c s) (handle_event env e s)
    unfolding handle_event Behaviour.connection_closed inject_kad_event inject_mdns_event
        inject_ping_event inject_id_event
    event-Within (SwarmEvent.connection_closed peer point n cause) s = ground arith
    event-Within (SwarmEvent.kad (outbound_query_completed id r)) s = result-le c env id r s
    event-Within (SwarmEvent.kad KademliaEvent.other) s = ground arith
    event-Within (SwarmEvent.mdns (MdnsEvent.discovered l)) s = ground (arith, discovered-same l s)
    event-Within (SwarmEvent.mdns (MdnsEvent.expired l)) s = ground arith
    event-Within (SwarmEvent.ping peer (PingResult.ping rtt)) s =
        with_peers-Within (AddressBook.set_rtt env peer (some rtt) s.peers) s
    event-Within (SwarmEvent.ping peer PingResult.pong) s = ground arith
    event-Within (SwarmEvent.ping peer PingResult.timeout) s =
        with_peers-Within (AddressBook.set_rtt env peer none s.peers) s
    event-Within (SwarmEvent.ping peer PingResult.unsupported) s = ground arith
    event-Within (SwarmEvent.ping peer (PingResult.other e)) s =
        with_peers-Within (AddressBook.set_rtt env peer none s.peers) s
    event-Within (SwarmEvent.identify (IdentifyEvent.received peer info)) s = ground arith
    event-Within (SwarmEvent.identify (IdentifyEvent.sent peer)) s = ground arith
    event-Within (SwarmEvent.identify (IdentifyEvent.pushed peer)) s = ground arith
    event-Within (SwarmEvent.identify (IdentifyEvent.error peer)) s = ground arith
    event-Within (SwarmEvent.bitswap e) s = bitswap-le e s
    event-Within (SwarmEvent.gossipsub e) s = ground (arith, gossip-same e s)
    event-Within (SwarmEvent.broadcast e) s = broadcast-Within e s
    event-Within SwarmEvent.other s = ground arith
