-- ===== src/Examples/Network.antt =====
-- Runs of the loop of src/net/mod.rs and of the methods of src/net/behaviour.rs.
use ipfs_embed.Common.{
  ◌+◌, ◌≤◌, ◌≡◌, refl, string_eq, true, false, none, some, List, [], ◌∷◌, unwrap_or, ℕ_discrete,
}
use ipfs_embed.Common.Assoc.{get, insert, contains_key, contains}
use ipfs_embed.AddressBook
use ipfs_embed.Service.Stepped.{poll_swarm-book_after, book_after}
use ipfs_embed.Behaviour.{QueryId-discrete, NetworkBackend, NetworkError, ok, err, Request}
use ipfs_embed.Behaviour.Queries.{done, QueryResult, outbound_query_completed, inject_kad_event}
use ipfs_embed.Behaviour.Starting
use ipfs_embed.Behaviour.Topics.{subscribe, Published}
use ipfs_embed.Behaviour.Refused.{subscribe-refused}
use ipfs_embed.Service.{NetworkCommand, SwarmEvent, Answers, Input, event, command, poll_swarm}
use ipfs_embed.Service.{handle_command, handle_event}
use ipfs_embed.Behaviour.{QueryId, query_id_eq, Reply, PingResult, inject_ping_event}
use ipfs_embed.Behaviour
use ipfs_embed.PeerInfo
use ipfs_embed.PeerInfo.{is_confirmed, ingest_address, is_to_probe}
use ipfs_embed.Behaviour.Queries.{BitswapEvent}
use ipfs_embed.Service.Asked.{Query}
use ipfs_embed.Service.Answered.{query-answered}
use ipfs_embed.Common.{◌++◌}
use ipfs_embed.Service.Counting.{finals, pending}
use ipfs_embed.Service.Once.{finals-poll_swarm}
use ipfs_embed.Service.Untouched.{Wire, listens}
use ipfs_embed.Service.Matched.{AllHeard}
use ipfs_embed.Service.Runs.{
  bootstrap_complete-poll_swarm, poll_swarm-AllHeard, poll_swarm-IsMatched,
}
use ipfs_embed.Events.{Event}
use ipfs_embed.Service.Client.{
  ready, progress, complete, poll_sync, ListenerEvent, notice, forward_listener_events,
}
use ipfs_embed.Service.Client.Futures.{query, poll_sync_lem, forward_listener_events_lem}
use ipfs_embed.Examples.{addr, env, network}

poll_sync_example :
    poll_sync 2 (query none (progress 7 ∷ complete (ok tt) ∷ []) false)
    ≡ some (ready (ok tt), query none [] false)
poll_sync_example = (poll_sync_lem (7 ∷ []) none (ok tt) [] false).0

-- Events of two listeners: the second one is closed first.
abbrev told : List Event
told =
    Event.new_listen_addr 2 addr
    ∷ Event.listener_closed 2
    ∷ Event.new_listen_addr 1 addr
    ∷ Event.listener_closed 1
    ∷ Event.expired_listen_addr 1 addr
    ∷ []

forward_listener_events_example :
    forward_listener_events 1 5 told ≡ ListenerEvent.new_listen_addr addr ∷ []
unfolding notice
forward_listener_events_example = forward_listener_events_lem 1 5 told

abbrev answers : Answers
answers = record {
  channel = 8;
  query_id = 5;
  started = done 5;
  refused = none;
  published = Published.published;
  listener = done 1;
}

-- A bootstrap that ends at once, a subscription, and a look for providers.
abbrev inputs : List Input
inputs =
    command env (NetworkCommand.bootstrap [] 7) answers
    ∷ event env (SwarmEvent.kad (outbound_query_completed 5 (QueryResult.bootstrap (done 0))))
    ∷ command env (NetworkCommand.subscribe "topic" 6) answers
    ∷ command env (NetworkCommand.providers 9 4) answers
    ∷ []

abbrev after : NetworkBackend
after = unwrap_or (poll_swarm inputs network) network

after_lem : poll_swarm inputs network ≡ some after
unfolding poll_swarm
after_lem = refl

finals-poll_swarm_example : finals 7 after.replies + pending 7 after.queries ≤ 1
finals-poll_swarm_example = finals-poll_swarm 7 inputs network after refl refl after_lem

bootstrap_complete_example : after.bootstrap_complete ≡ true
bootstrap_complete_example = bootstrap_complete-poll_swarm inputs network after after_lem

poll_swarm-AllHeard_example : AllHeard after
poll_swarm-AllHeard_example = poll_swarm-AllHeard inputs network after after_lem tt

poll_swarm-IsMatched_example :
    listens Wire.broadcast "topic" after ≡ contains_key "topic" after.subscriptions
unfolding poll_swarm subscribe Starting.bootstrap Starting.providers inject_kad_event get insert
    QueryId-discrete ℕ_discrete
poll_swarm-IsMatched_example =
    poll_swarm-IsMatched Wire.broadcast "topic" inputs network after after_lem refl refl refl refl

subscribe-refused_example :
    let first = subscribe "topic" (some "e") 3 network in
    let second = subscribe "topic" none 4 first.0 in
    (first.1 ≡ err (NetworkError.gossipsub_subscribe "e"))
    × ((second.1 ≡ ok 4) × (second.0.requests ≡ Request.gossipsub_subscribe "topic" ∷ []))
unfolding get
subscribe-refused_example = subscribe-refused "topic" "e" none 3 4 network refl refl

-- On a fresh address book, after an address is added and a ping to its peer fails.
abbrev booked : List Input
booked =
    command env (NetworkCommand.add_address 2 addr) answers
    ∷ event env (SwarmEvent.ping 2 PingResult.timeout)
    ∷ inputs

abbrev fresh : NetworkBackend
fresh = record network { peers = AddressBook.new 1 true true false }

abbrev fresh_after : NetworkBackend
fresh_after = unwrap_or (poll_swarm booked fresh) fresh

fresh_after_lem : poll_swarm booked fresh ≡ some fresh_after
unfolding poll_swarm inject_ping_event AddressBook.set_rtt get Behaviour.add_address
    AddressBook.add_address AddressBook.new contains is_confirmed ingest_address is_to_probe insert
    PeerInfo.set_rtt
fresh_after_lem = refl

poll_swarm-book_after_example : book_after booked fresh.peers ≡ some fresh_after.peers
poll_swarm-book_after_example = poll_swarm-book_after booked fresh fresh_after fresh_after_lem

-- Bitswap finds block 40.
query-answered_example :
    (s₁ : NetworkBackend) × (handle_command env (NetworkCommand.get 40 (2 ∷ []) 7) answers network
      ≡ some s₁)
    × ((s₂ : NetworkBackend)
        → get (QueryId.bitswap 5) s₂.queries ≡ get (QueryId.bitswap 5) s₁.queries
        → (s₃ : NetworkBackend) × (handle_event env
              (SwarmEvent.bitswap (BitswapEvent.complete 5 (done tt)))
              s₂
            ≡ some s₃)
          × (s₃.replies ≡ s₂.replies ++ (8, Reply.unit (ok tt)) ∷ [])
          × (get (QueryId.bitswap 5) s₃.queries ≡ none))
query-answered_example =
    query-answered env env answers 7 (Query.get 40 (2 ∷ []) (done tt)) network refl refl
