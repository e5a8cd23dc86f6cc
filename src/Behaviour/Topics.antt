-- ===== src/Behaviour/Topics.antt =====
-- The topics of src/net/behaviour.rs: who listens to a topic, and the events of gossipsub and
-- broadcast that they are sent. The hash of an `IdentTopic` is its text.
use ipfs_embed.Common.{
  ℕ, String, string_eq, Bool, not, ◌&&◌, Option, none, some, List, [], ◌∷◌, ◌++◌, map, filterb,
  is_empty, if◌then◌else◌, unwrap_or,
}
use ipfs_embed.Common.Assoc.{get, insert, remove}
use ipfs_embed.Multiaddr.{PeerId}
use ipfs_embed.Events.{Env}
use ipfs_embed.Events
use ipfs_embed.AddressBook
use ipfs_embed.Behaviour.{
  Channel, NetworkError, Result, ok, err, Done, GossipEvent, Request, NetworkBackend, ask, on_peers,
}

pub data GossipsubEvent : Type 0 where
  message : List ℕ → String → Option PeerId → PeerId → GossipsubEvent
  subscribed unsubscribed : PeerId → String → GossipsubEvent
  gossipsub_not_supported : PeerId → GossipsubEvent

-- A topic of broadcast is bytes: `none` where they are not UTF-8.
pub data BroadcastEvent : Type 0 where
  received : PeerId → Option String → List ℕ → BroadcastEvent
  subscribed unsubscribed : PeerId → Option String → BroadcastEvent

-- What `Gossipsub::publish` answers.
pub data Published : Type 0 where
  published insufficient_peers : Published
  failed : String → Published

abbrev pub set_topic : String → List Channel → NetworkBackend → NetworkBackend
set_topic topic txs s = record s { subscriptions = insert topic txs s.subscriptions }

abbrev pub ask_if : Bool → Request → NetworkBackend → NetworkBackend
ask_if on r s = if on then ask r s else s

-- The first subscription to a topic: `refused` is the answer of gossipsub, asked where it is on.
unfoldable pub subscribe_first :
    String → Option String → Channel → NetworkBackend → NetworkBackend × Result Channel
subscribe_first topic refused tx s =
    let known = set_topic topic (tx ∷ []) s in
    let asked = ask (Request.gossipsub_subscribe topic) known in
    if s.protocols.gossipsub
    then elim refused [
      | some e ↦ (asked, err (NetworkError.gossipsub_subscribe e))
      | none ↦ (ask_if s.protocols.broadcast (Request.broadcast_subscribe topic) asked, ok tx)
    ]
    else (ask_if s.protocols.broadcast (Request.broadcast_subscribe topic) known, ok tx)

unfoldable pub subscribe :
    String → Option String → Channel → NetworkBackend → NetworkBackend × Result Channel
unfolding subscribe_first
subscribe topic refused tx s =
    if not s.protocols.gossipsub && not s.protocols.broadcast
    then (s, err (NetworkError.disabled_protocol "gossipsub and broadcast"))
    else elim (get topic s.subscriptions) [
      | some txs ↦ (set_topic topic (txs ++ tx ∷ []) s, ok tx)
      | none ↦ subscribe_first topic refused tx s
    ]

-- An error of gossipsub is only logged.
unfoldable pub unsubscribe : String → NetworkBackend → NetworkBackend
unsubscribe topic s =
    ask_if s.protocols.broadcast (Request.broadcast_unsubscribe topic)
      (ask_if s.protocols.gossipsub (Request.gossipsub_unsubscribe topic) s)

unfoldable pub publish : String → List ℕ → Published → NetworkBackend → NetworkBackend × Result Done
publish topic msg answer s =
    let asked = ask (Request.gossipsub_publish topic msg) s in
    if s.protocols.gossipsub
    then elim answer [
      | Published.published ↦ (asked, ok tt)
      | Published.insufficient_peers ↦ (asked, ok tt)
      | Published.failed e ↦ (asked, err (NetworkError.gossipsub_publish e))
    ]
    else (s, err (NetworkError.disabled_protocol "gossipsub"))

unfoldable pub broadcast : String → List ℕ → NetworkBackend → NetworkBackend × Result Done
broadcast topic msg s =
    if s.protocols.broadcast
    then (ask (Request.broadcast_message topic msg) s, ok tt)
    else (s, err (NetworkError.disabled_protocol "broadcast"))

module _ (env : Env) where
  -- The subscribers that remain, each sent the event; the last one that leaves ends the topic.
  unfoldable pub send_topic : String → GossipEvent → List Channel → NetworkBackend → NetworkBackend
  unfolding unsubscribe
  send_topic topic event txs s =
      let live = filterb env.alive txs in
      let told = record s { gossip = s.gossip ++ map (λ tx. (tx, event)) live } in
      let left = unsubscribe topic told in
      if is_empty live
      then record left { subscriptions = remove topic left.subscriptions }
      else set_topic topic live told

  unfoldable pub notify_subscribers : String → GossipEvent → NetworkBackend → NetworkBackend
  unfolding send_topic
  notify_subscribers topic event s = elim (get topic s.subscriptions) [
    | none ↦ s
    | some txs ↦ send_topic topic event txs s
  ]

  abbrev announce : Events.Event → NetworkBackend → NetworkBackend
  announce e s = on_peers (AddressBook.notify env e) s

  unfoldable pub inject_gossip_event : GossipsubEvent → NetworkBackend → NetworkBackend
  unfolding notify_subscribers
  inject_gossip_event (GossipsubEvent.message data_ topic source propagation_source) s =
      notify_subscribers topic (GossipEvent.message (unwrap_or source propagation_source) data_) s
  inject_gossip_event (GossipsubEvent.subscribed peer topic) s =
      notify_subscribers topic (GossipEvent.subscribed peer)
        (announce (Events.Event.subscribed peer topic) s)
  inject_gossip_event (GossipsubEvent.unsubscribed peer topic) s =
      notify_subscribers topic (GossipEvent.unsubscribed peer)
        (announce (Events.Event.unsubscribed peer topic) s)
  inject_gossip_event (GossipsubEvent.gossipsub_not_supported peer) s = s

  -- `none` is the panic on the topic of a message that is not UTF-8.
  unfoldable pub inject_broadcast_event : BroadcastEvent → NetworkBackend → Option NetworkBackend
  unfolding notify_subscribers
  inject_broadcast_event (BroadcastEvent.received peer none msg) s = none
  inject_broadcast_event (BroadcastEvent.received peer (some topic) msg) s =
      some (notify_subscribers topic (GossipEvent.message peer msg) s)
  inject_broadcast_event (BroadcastEvent.subscribed peer none) s = some s
  inject_broadcast_event (BroadcastEvent.subscribed peer (some topic)) s = some (
      notify_subscribers topic (GossipEvent.subscribed peer)
        (announce (Events.Event.subscribed peer topic) s))
  inject_broadcast_event (BroadcastEvent.unsubscribed peer none) s = some s
  inject_broadcast_event (BroadcastEvent.unsubscribed peer (some topic)) s = some (
      notify_subscribers topic (GossipEvent.unsubscribed peer)
        (announce (Events.Event.unsubscribed peer topic) s))
