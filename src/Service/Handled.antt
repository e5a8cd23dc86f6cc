-- ===== src/Service/Handled.antt =====
-- The steps that the commands of `poll_swarm` of src/net/mod.rs are made of, and what they keep.
use ipfs_embed.Common.{
  ℕ, string_eq, ◌≡◌, refl, String, Bool, true, false, Option, none, some, List, arith, is_none,
  if◌then◌else◌,
}
use ipfs_embed.Multiaddr.{Multiaddr}
use ipfs_embed.Behaviour
use ipfs_embed.Behaviour.{
  QueryId, query_id_eq, QueryChannel, Channel, Reply, Result, ok, err, GossipEvent, Protocols,
  NetworkBackend, NetworkError, Request, ask, dial, inject_mdns_event, inject_ping_event,
  inject_id_event, MdnsEvent, PingResult, IdentifyEvent,
}
use ipfs_embed.Behaviour.Queries.{Outcome, done, failed}
use mathlib.Core.Bool.{false≢true}
use ipfs_embed.Behaviour.Queries.{insert_query}
use ipfs_embed.Behaviour.Topics.{subscribe_first}
use ipfs_embed.Behaviour.Starting
use ipfs_embed.Behaviour.Starting.{start_or}
use ipfs_embed.Behaviour.Topics
use ipfs_embed.Behaviour.Topics.{
  Published, GossipsubEvent, BroadcastEvent, inject_gossip_event, inject_broadcast_event,
  notify_subscribers, send_topic,
}
use ipfs_embed.Service.{listening, reply_query}
use ipfs_embed.Service.Untouched.{
  Wire, listens, Holds, Same, IsQuiet, Same-refl, Same-trans, if_ask-Same, ask-Same, start_or-Same,
}
use ipfs_embed.Service.Matched.{IsMatched}
use ipfs_embed.Service.Joined.{subscribe-IsMatched, subscribe-AllHeard}
use ipfs_embed.Service.Kept.{Kept, Same-Kept}

module _ (w : Wire) (topic : String) where
  pub quiet_if-Kept :
      (on : Bool) (r : Request) (s : NetworkBackend)
      → IsQuiet w topic r
      → Kept w topic false true s (if on then ask r s else s)
  quiet_if-Kept on r s q =
      Same-Kept w topic true s (if on then ask r s else s) (if_ask-Same w topic on r s q)

  pub ask-Kept :
      (r : Request) (s : NetworkBackend) → IsQuiet w topic r → Kept w topic false true s (ask r s)
  ask-Kept r s q = Same-Kept w topic true s (ask r s) (ask-Same w topic r s (q (listens w topic s)))

  -- Kademlia is asked only after the bootstrap, and only if it is on.
  pub guarded-Kept :
      (ready on : Bool) (asked refused s : NetworkBackend)
      → Same w topic s asked
      → Same w topic s refused
      → Kept w topic false true s (if ready then (if on then asked else s) else refused)
  guarded-Kept true true asked refused s p q = Same-Kept w topic true s asked p
  guarded-Kept true false asked refused s p q = Same-Kept w topic true s s (Same-refl w topic s)
  guarded-Kept false on asked refused s p q = Same-Kept w topic true s refused q

  pub listening-Same :
      (addr : Multiaddr) (tx rx : Channel) (o : Outcome ℕ) (s : NetworkBackend)
      → Same w topic s (listening addr tx rx o s)
  listening-Same addr tx rx (done id) s =
      ask-Same w topic (Request.forward_listener_events id tx rx) s refl
  listening-Same addr tx rx (failed e) s = Same-refl w topic s

  pub query-Kept :
      (tx rx : Channel) (q : QueryChannel) (id : QueryId) (r : Request) (s : NetworkBackend)
      (on : Bool)
      → IsQuiet w topic r
      → Holds
          (Kept w topic false true s)
          (reply_query tx rx (if on then some (insert_query id q (ask r s), id) else none))
  query-Kept tx rx q id r s false e = tt
  query-Kept tx rx q id r s true e =
      Same-Kept w topic true s _ (ask-Same w topic r s (e (listens w topic s)))

  pub flag-subscribe :
      (t : String) (refused : Option String) (rx : Channel) (s : NetworkBackend)
      → (Topics.subscribe t refused rx s).0.bootstrap_complete ≡ s.bootstrap_complete
  unfolding Topics.subscribe subscribe_first
  flag-subscribe t refused rx s = ground arith

  pub protocols-subscribe :
      (t : String) (refused : Option String) (rx : Channel) (s : NetworkBackend)
      → (Topics.subscribe t refused rx s).0.protocols ≡ s.protocols
  unfolding Topics.subscribe subscribe_first
  protocols-subscribe t refused rx s = ground arith

  pub accepted-IsMatched :
      (t : String) (refused : Option String) (rx : Channel) (s : NetworkBackend)
      → is_none refused ≡ true
      → IsMatched w topic s
      → IsMatched w topic (Topics.subscribe t refused rx s).0
  accepted-IsMatched t none rx s a m = subscribe-IsMatched w topic t rx s m
  accepted-IsMatched t (some e) rx s a m = absurd (false≢true a)

  pub subscribe-Kept :
      (t : String) (refused : Option String) (rx : Channel) (s : NetworkBackend)
      → Kept w topic false (is_none refused) s (Topics.subscribe t refused rx s).0
  subscribe-Kept t refused rx s = record {
    flag = flag-subscribe t refused rx s;
    wires = protocols-subscribe t refused rx s;
    heard = subscribe-AllHeard t refused rx s;
    matched = accepted-IsMatched t refused rx s;
  }

  pub if_fst-Same :
      (b : Bool) (t s : NetworkBackend) (x y : Result Behaviour.Done)
      → Same w topic s t
      → Same w topic s
          (if◌then◌else◌ {A = NetworkBackend × Result Behaviour.Done} b (t, x) (s, y)).0
  if_fst-Same true t s x y e = e
  if_fst-Same false t s x y e = Same-refl w topic s

  pub if_else-Same :
      (b : Bool) (t u s : NetworkBackend)
      → Same w topic s t
      → Same w topic s u
      → Same w topic s (if b then t else u)
  if_else-Same true t u s e f = e
  if_else-Same false t u s e f = f

  pub publish-Same :
      (t : String) (m : List ℕ) (p : Published) (s : NetworkBackend)
      → Same w topic s (Topics.publish t m p s).0
  unfolding Topics.publish
  publish-Same t m Published.published s =
      if_fst-Same s.protocols.gossipsub (ask (Request.gossipsub_publish t m) s) s _ _
        (ask-Same w topic (Request.gossipsub_publish t m) s refl)
  publish-Same t m Published.insufficient_peers s =
      if_fst-Same s.protocols.gossipsub (ask (Request.gossipsub_publish t m) s) s _ _
        (ask-Same w topic (Request.gossipsub_publish t m) s refl)
  publish-Same t m (Published.failed e) s =
      if_fst-Same s.protocols.gossipsub (ask (Request.gossipsub_publish t m) s) s _ _
        (ask-Same w topic (Request.gossipsub_publish t m) s refl)

  pub broadcast-Same :
      (t : String) (m : List ℕ) (s : NetworkBackend) → Same w topic s (Topics.broadcast t m s).0
  unfolding Topics.broadcast
  broadcast-Same t m s =
      if_fst-Same s.protocols.broadcast (ask (Request.broadcast_message t m) s) s _ _
        (ask-Same w topic (Request.broadcast_message t m) s refl)

  pub bootstrap-Same :
      (o : Outcome ℕ) (tx : Channel) (s : NetworkBackend)
      → Same w topic s (Starting.bootstrap o tx s)
  unfolding Starting.bootstrap
  bootstrap-Same o tx s =
      let started =
        start_or (QueryChannel.bootstrap tx) tx NetworkError.no_known_peers o
          (ask Request.kad_bootstrap s) in
      if_else-Same s.protocols.kad started
        (Behaviour.send tx (Reply.unit (err NetworkError.not_bootstrapped)) s) s
        (Same-trans w topic s (ask Request.kad_bootstrap s) started
          (ask-Same w topic Request.kad_bootstrap s refl)
          (start_or-Same w topic (QueryChannel.bootstrap tx) tx NetworkError.no_known_peers o
            (ask Request.kad_bootstrap s)))
        (Same-refl w topic s)

  pub unless_off :
      (on : Bool) (t s : NetworkBackend)
      → Same w topic s t
      → Holds (Kept w topic false true s) (if on then some t else none)
  unless_off true t s e = Same-Kept w topic true s t e
  unless_off false t s e = tt
