-- ===== src/Service.antt =====
-- `poll_swarm` of src/net/mod.rs: the loop that handles the commands of `NetworkService` and the
-- events of the swarm, one at a time.

pub mod Untouched
pub mod Matched
pub mod Joined
pub mod Kept
pub mod Handled
pub mod Commands
pub mod Runs
pub mod BookCalls
pub mod Stepped
pub mod Client
pub mod Counting
pub mod Quiet
pub mod Once
pub mod Asked
pub mod Answered
use ipfs_embed.Common.{ℕ, String, Bool, true, false, Option, none, some, List, [], ◌∷◌, ◌>>=◌}
use ipfs_embed.Multiaddr.{PeerId, Multiaddr, ConnectedPoint}
use ipfs_embed.PeerInfo.{AddressSource}
use ipfs_embed.Events.{Env, ListenerId, CloseCause}
use ipfs_embed.Behaviour
use ipfs_embed.Behaviour.{
  QueryId, Channel, Key, Cid, Record, Result, Done, Reply, Request, NetworkBackend, ask, send,
  MdnsEvent, PingResult, IdentifyEvent,
}
use ipfs_embed.Behaviour.Queries.{
  Outcome, done, failed, KademliaEvent, BitswapEvent, inject_kad_event, inject_bitswap_event,
}
use ipfs_embed.Behaviour.Starting
use ipfs_embed.Behaviour.Topics
use ipfs_embed.Behaviour.Topics.{
  GossipsubEvent, BroadcastEvent, Published, inject_gossip_event, inject_broadcast_event,
}

pub data NetworkCommand : Type 0 where
  listen_on : Multiaddr → Channel → NetworkCommand
  add_external_address : Multiaddr → NetworkCommand
  add_address remove_address dial_address : PeerId → Multiaddr → NetworkCommand
  prune_peers : ℕ → NetworkCommand
  dial ban unban : PeerId → NetworkCommand
  bootstrap : List (PeerId × Multiaddr) → Channel → NetworkCommand
  providers provide get_record : Key → Channel → NetworkCommand
  unprovide remove_record : Key → NetworkCommand
  put_record : Record → Channel → NetworkCommand
  subscribe : String → Channel → NetworkCommand
  publish broadcast : String → List ℕ → Channel → NetworkCommand
  get : Cid → List PeerId → Channel → NetworkCommand
  sync : Cid → List PeerId → List Cid → Channel → NetworkCommand
  swarm_events : Channel → NetworkCommand
  cancel_query : QueryId → NetworkCommand

pub data SwarmEvent : Type 0 where
  connection_closed : PeerId → ConnectedPoint → ℕ → Option CloseCause → SwarmEvent
  kad : KademliaEvent → SwarmEvent
  mdns : MdnsEvent → SwarmEvent
  ping : PeerId → PingResult → SwarmEvent
  identify : IdentifyEvent → SwarmEvent
  bitswap : BitswapEvent → SwarmEvent
  gossipsub : GossipsubEvent → SwarmEvent
  broadcast : BroadcastEvent → SwarmEvent
  other : SwarmEvent

-- What the libraries answer while a command is handled: the channel that is made, the query that
-- Kademlia or bitswap starts, and the answers of gossipsub and of the swarm.
pub record Answers : Type 0 where
  pub channel : Channel
  pub query_id : ℕ
  pub started : Outcome ℕ
  pub refused : Option String
  pub published : Published
  pub listener : Outcome ListenerId

abbrev pub reply_with {ℓ} :
    {A : Type ℓ} → Channel → (A → Reply) → NetworkBackend × A → NetworkBackend
reply_with tx f (s, r) = send tx (f r) s

-- The rest of `ListenOn`, by what `Swarm::listen_on` answers.
abbrev pub listening :
    Multiaddr → Channel → Channel → Outcome ListenerId → NetworkBackend → NetworkBackend
listening addr response rx (done id) s = ask (Request.forward_listener_events id response rx) s
listening addr response rx (failed e) s = send response (Reply.listen_failed addr e) s

-- The answer to `Get` and `Sync`: the query's id and the channel made for it.
abbrev pub reply_query :
    Channel → Channel → Option (NetworkBackend × QueryId) → Option NetworkBackend
reply_query tx rx none = none
reply_query tx rx (some (s, id)) = some (send tx (Reply.query id rx) s)

module _ (env : Env) where
  unfoldable pub add_initial : List (PeerId × Multiaddr) → NetworkBackend → NetworkBackend
  add_initial [] s = s
  add_initial ((peer, addr) ∷ rest) s =
      add_initial rest
        (Behaviour.dial peer (Behaviour.add_address env peer addr AddressSource.user s))

  -- `none` is a panic, which ends the task.
  unfoldable pub handle_event : SwarmEvent → NetworkBackend → Option NetworkBackend
  handle_event (connection_closed peer point n cause) s =
      some (Behaviour.connection_closed env peer point n cause s)
  handle_event (kad e) s = some (inject_kad_event env e s)
  handle_event (mdns e) s = some (Behaviour.inject_mdns_event env e s)
  handle_event (ping peer r) s = Behaviour.inject_ping_event env peer r s
  handle_event (identify e) s = some (Behaviour.inject_id_event env e s)
  handle_event (bitswap e) s = some (inject_bitswap_event e s)
  handle_event (gossipsub e) s = some (inject_gossip_event env e s)
  handle_event (SwarmEvent.broadcast e) s = inject_broadcast_event env e s
  handle_event other s = some s

  unfoldable pub handle_command : NetworkCommand → Answers → NetworkBackend → Option NetworkBackend
  unfolding add_initial
  handle_command (listen_on addr response) a s = some (
      listening addr response a.channel a.listener
        (ask (Request.listen_on addr) (Behaviour.swarm_events a.channel s)))
  handle_command (add_external_address addr) a s = some (ask (Request.add_external_address addr) s)
  handle_command (add_address peer addr) a s =
      some (Behaviour.add_address env peer addr AddressSource.user s)
  handle_command (remove_address peer addr) a s = some (Behaviour.remove_address env peer addr s)
  handle_command (prune_peers min_age) a s = some (Behaviour.prune_peers env min_age s)
  handle_command (dial peer) a s = some (Behaviour.dial peer s)
  handle_command (dial_address peer addr) a s = some (Behaviour.dial_address env peer addr s)
  handle_command (ban peer) a s = some (ask (Request.ban peer) s)
  handle_command (unban peer) a s = some (ask (Request.unban peer) s)
  handle_command (bootstrap initial tx) a s =
      some (Starting.bootstrap a.started tx (add_initial initial s))
  handle_command (providers key tx) a s = some (Starting.providers key a.query_id tx s)
  handle_command (provide key tx) a s = some (Starting.provide key a.started tx s)
  handle_command (unprovide key) a s = some (Starting.unprovide key s)
  handle_command (get_record key tx) a s = some (Starting.get_record key a.query_id tx s)
  handle_command (put_record item tx) a s = some (Starting.put_record item a.started tx s)
  handle_command (remove_record key) a s = some (Starting.remove_record key s)
  handle_command (subscribe topic tx) a s =
      some (reply_with tx Reply.subscription (Topics.subscribe topic a.refused a.channel s))
  handle_command (publish topic msg tx) a s =
      some (reply_with tx Reply.unit (Topics.publish topic msg a.published s))
  handle_command (NetworkCommand.broadcast topic msg tx) a s =
      some (reply_with tx Reply.unit (Topics.broadcast topic msg s))
  handle_command (get cid from tx) a s =
      reply_query tx a.channel (Starting.get_block cid from a.query_id a.channel s)
  handle_command (sync cid from missing tx) a s =
      reply_query tx a.channel (Starting.sync cid from missing a.query_id a.channel s)
  handle_command (swarm_events tx) a s =
      some (send tx (Reply.events a.channel) (Behaviour.swarm_events a.channel s))
  handle_command (cancel_query id) a s = Starting.cancel id s

-- What one round of the loop is given; the loop ends with its inputs.
pub data Input : Type 0 where
  event : Env → SwarmEvent → Input
  command : Env → NetworkCommand → Answers → Input

unfoldable pub handle : Input → NetworkBackend → Option NetworkBackend
unfolding handle_event handle_command
handle (event env e) s = handle_event env e s
handle (command env c a) s = handle_command env c a s

unfoldable pub poll_swarm : List Input → NetworkBackend → Option NetworkBackend
unfolding handle
poll_swarm [] s = some s
poll_swarm (i ∷ is) s = do next ← handle i s; poll_swarm is next
