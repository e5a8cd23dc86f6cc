-- ===== src/Service/Stepped.antt =====
-- The calls of the address book that the commands and the runs of `poll_swarm` of src/net/mod.rs make.
use mathlib.Core.Path.{subst}
use ipfs_embed.Common.{
  ℕ, ◌≡◌, refl, String, Bool, true, false, Option, none, some, List, [], ◌∷◌, arith, if◌then◌else◌,
  ◌>>=◌, ap, sym, ◌∙◌,
}
use ipfs_embed.Multiaddr.{PeerId, Multiaddr}
use ipfs_embed.PeerInfo.{AddressSource}
use ipfs_embed.Events.{Env}
use ipfs_embed.AddressBook
use ipfs_embed.AddressBook.{AddressBook}
use ipfs_embed.AddressBook.Steps.{Call, perform}
use ipfs_embed.Behaviour
use ipfs_embed.Behaviour.{
  QueryId, QueryChannel, Channel, Reply, Result, Done, ok, err, GossipEvent, NetworkBackend,
  NetworkError, Request, ask, add_discovered, with_peers, dial, inject_mdns_event,
  inject_ping_event, inject_id_event, MdnsEvent, PingResult, IdentifyEvent,
}
use ipfs_embed.Behaviour.Queries.{Outcome, done, failed, insert_query, remove_query}
use ipfs_embed.Behaviour.Starting
use ipfs_embed.Behaviour.Starting.{start_or}
use ipfs_embed.Behaviour.Topics
use ipfs_embed.Behaviour.Topics.{
  Published, GossipsubEvent, BroadcastEvent, inject_gossip_event, inject_broadcast_event,
  notify_subscribers, send_topic, unsubscribe, subscribe_first,
}
use ipfs_embed.Service.{
  NetworkCommand, Answers, Input, event, command, handle_command, handle, poll_swarm, add_initial,
  listening, reply_query,
}
use ipfs_embed.Service.BookCalls.{
  BookCall, plain, performed, event_calls, Makes, MakesAll, ends_in, peers-if_ask, peers-start_or,
  event-Makes, peers-add_address,
}

peers-subscribe :
    (topic : String) (refused : Option String) (rx : Channel) (s : NetworkBackend)
    → (Topics.subscribe topic refused rx s).0.peers ≡ s.peers
unfolding Topics.subscribe subscribe_first
peers-subscribe topic refused rx s = ground arith

peers-publish :
    (topic : String) (m : List ℕ) (p : Published) (s : NetworkBackend)
    → (Topics.publish topic m p s).0.peers ≡ s.peers
unfolding Topics.publish
peers-publish topic m p s = ground arith

peers-broadcast :
    (topic : String) (m : List ℕ) (s : NetworkBackend)
    → (Topics.broadcast topic m s).0.peers ≡ s.peers
unfolding Topics.broadcast
peers-broadcast topic m s = ground arith

-- Kademlia is asked only after the bootstrap, and only if it is on.
peers-guarded :
    (ready on : Bool) (t u s : NetworkBackend)
    → t.peers ≡ s.peers
    → u.peers ≡ s.peers
    → (if ready then (if on then t else s) else u).peers ≡ s.peers
peers-guarded true true t u s e f = e
peers-guarded true false t u s e f = refl
peers-guarded false on t u s e f = f

peers-if :
    (b : Bool) (t u s : NetworkBackend)
    → t.peers ≡ s.peers
    → u.peers ≡ s.peers
    → (if b then t else u).peers ≡ s.peers
peers-if true t u s e f = e
peers-if false t u s e f = f

peers-bootstrap :
    (o : Outcome ℕ) (tx : Channel) (s : NetworkBackend)
    → (Starting.bootstrap o tx s).peers ≡ s.peers
unfolding Starting.bootstrap
peers-bootstrap o tx s =
    peers-if s.protocols.kad _ _ s
      (peers-start_or (QueryChannel.bootstrap tx) tx NetworkError.no_known_peers o
        (ask Request.kad_bootstrap s))
      refl

peers-listening :
    (addr : Multiaddr) (tx rx : Channel) (o : Outcome ℕ) (s : NetworkBackend)
    → (listening addr tx rx o s).peers ≡ s.peers
peers-listening addr tx rx (done id) s = refl
peers-listening addr tx rx (failed e) s = refl

abbrev pub initial_calls : List (PeerId × Multiaddr) → List BookCall
initial_calls [] = []
initial_calls ((peer, a) ∷ l) =
    plain (Call.add_address peer a AddressSource.user) ∷ plain (Call.dial peer) ∷ initial_calls l

-- The calls that a command makes, in order; bans, queries and topics are none of the book's.
abbrev pub command_calls : NetworkCommand → Answers → List BookCall
command_calls (NetworkCommand.listen_on addr tx) a = plain (Call.swarm_events a.channel) ∷ []
command_calls (NetworkCommand.swarm_events tx) a = plain (Call.swarm_events a.channel) ∷ []
command_calls (NetworkCommand.add_address peer addr) a =
    plain (Call.add_address peer addr AddressSource.user) ∷ []
command_calls (NetworkCommand.remove_address peer addr) a =
    plain (Call.remove_address peer addr) ∷ []
command_calls (NetworkCommand.dial_address peer addr) a = plain (Call.dial_address peer addr) ∷ []
command_calls (NetworkCommand.prune_peers n) a = plain (Call.prune_peers n) ∷ []
command_calls (NetworkCommand.dial peer) a = plain (Call.dial peer) ∷ []
command_calls (NetworkCommand.bootstrap l tx) a = initial_calls l
command_calls _ a = []

query-Makes :
    (env : Env) (tx rx : Channel) (q : QueryChannel) (id : QueryId) (r : Request)
    (s : NetworkBackend) (on : Bool)
    → MakesAll env [] s
        (reply_query tx rx (if on then some (insert_query id q (ask r s), id) else none))
query-Makes env tx rx q id r s false = tt
query-Makes env tx rx q id r s true = refl

cancel-Makes :
    (env : Env) (on : Bool) (t s : NetworkBackend)
    → t.peers ≡ s.peers
    → MakesAll env [] s (if on then some t else none)
cancel-Makes env true t s e = ends_in s.peers t.peers e
cancel-Makes env false t s e = tt

initial-Makes :
    (env : Env) (l : List (PeerId × Multiaddr)) (s : NetworkBackend)
    → Makes env (initial_calls l) s (add_initial env l s)
unfolding add_initial dial perform
initial-Makes env [] s = refl
initial-Makes env ((peer, a) ∷ l) s =
    let t = Behaviour.add_address env peer a AddressSource.user s in
    subst
      (λ b.
        performed env (initial_calls l) (AddressBook.dial peer b)
        ≡ some (add_initial env ((peer, a) ∷ l) s).peers)
      (sym (peers-add_address env peer a AddressSource.user s)) (initial-Makes env l (dial peer t))

command-Makes :
    (env : Env) (k : NetworkCommand) (a : Answers) (s : NetworkBackend)
    → MakesAll env (command_calls k a) s (handle_command env k a s)
unfolding handle_command perform Behaviour.swarm_events Behaviour.remove_address
    Behaviour.prune_peers Behaviour.dial_address dial Starting.providers Starting.provide
    Starting.get_record Starting.put_record Starting.unprovide Starting.remove_record
    Starting.get_block Starting.sync Starting.cancel
command-Makes env (NetworkCommand.listen_on addr tx) a s =
    ends_in _ _ (peers-listening addr tx a.channel a.listener _)
command-Makes env (NetworkCommand.add_external_address addr) a s = refl
command-Makes env (NetworkCommand.add_address peer addr) a s =
    ap some (peers-add_address env peer addr AddressSource.user s)
command-Makes env (NetworkCommand.remove_address peer addr) a s = ends_in _ _ (
    peers-if_ask s.protocols.kad (Request.kad_remove_address peer addr)
      (Behaviour.on_peers (AddressBook.remove_address env peer addr) s))
command-Makes env (NetworkCommand.dial_address peer addr) a s = ends_in _ _ refl
command-Makes env (NetworkCommand.prune_peers n) a s = ends_in _ _ refl
command-Makes env (NetworkCommand.dial peer) a s = ends_in _ _ refl
command-Makes env (NetworkCommand.ban peer) a s = refl
command-Makes env (NetworkCommand.unban peer) a s = refl
command-Makes env (NetworkCommand.bootstrap l tx) a s =
    initial-Makes env l s ∙ ends_in _ _ (peers-bootstrap a.started tx (add_initial env l s))
command-Makes env (NetworkCommand.providers key tx) a s =
    ends_in s.peers _ (peers-guarded s.bootstrap_complete s.protocols.kad _ _ s refl refl)
command-Makes env (NetworkCommand.provide key tx) a s = ends_in s.peers _ (
    peers-guarded s.bootstrap_complete s.protocols.kad _ _ s
      (peers-start_or (QueryChannel.start_providing tx) tx NetworkError.kad_store a.started _) refl)
command-Makes env (NetworkCommand.get_record key tx) a s =
    ends_in s.peers _ (peers-guarded s.bootstrap_complete s.protocols.kad _ _ s refl refl)
command-Makes env (NetworkCommand.unprovide key) a s =
    ends_in s.peers _ (peers-if_ask s.protocols.kad (Request.kad_stop_providing key) s)
command-Makes env (NetworkCommand.remove_record key) a s =
    ends_in s.peers _ (peers-if_ask s.protocols.kad (Request.kad_remove_record key) s)
command-Makes env (NetworkCommand.put_record item tx) a s = ends_in s.peers _ (
    peers-guarded s.bootstrap_complete s.protocols.kad _ _ s
      (peers-start_or (QueryChannel.put_record tx) tx NetworkError.kad_store a.started _) refl)
command-Makes env (NetworkCommand.subscribe t tx) a s =
    ends_in s.peers _ (peers-subscribe t a.refused a.channel s)
command-Makes env (NetworkCommand.publish t m tx) a s =
    ends_in s.peers _ (peers-publish t m a.published s)
command-Makes env (NetworkCommand.broadcast t m tx) a s = ends_in s.peers _ (peers-broadcast t m s)
command-Makes env (NetworkCommand.get cid from tx) a s =
    query-Makes env tx a.channel (QueryChannel.get a.channel) (QueryId.bitswap a.query_id)
      (Request.bitswap_get cid from) s s.protocols.bitswap
command-Makes env (NetworkCommand.sync cid from missing tx) a s =
    query-Makes env tx a.channel (QueryChannel.sync a.channel) (QueryId.bitswap a.query_id)
      (Request.bitswap_sync cid from missing) s s.protocols.bitswap
command-Makes env (NetworkCommand.swarm_events tx) a s = ends_in _ _ refl
command-Makes env (NetworkCommand.cancel_query (QueryId.kad id)) a s = refl
command-Makes env (NetworkCommand.cancel_query (QueryId.bitswap id)) a s =
    cancel-Makes env s.protocols.bitswap
      (ask (Request.bitswap_cancel id) (remove_query (QueryId.bitswap id) s)) s refl

abbrev pub input_calls : Input → List BookCall
input_calls (event env e) = event_calls e
input_calls (command env k a) = command_calls k a

abbrev pub env_of : Input → Env
env_of (event env e) = env
env_of (command env k a) = env

-- The book after the calls of all inputs, one input after the other.
abbrev pub book_after : List Input → AddressBook → Option AddressBook
book_after [] b = some b
book_after (i ∷ is) b = performed (env_of i) (input_calls i) b >>= book_after is

handle-Makes : (i : Input) (s : NetworkBackend) → MakesAll (env_of i) (input_calls i) s (handle i s)
unfolding handle
handle-Makes (event env e) s = event-Makes env e s
handle-Makes (command env k a) s = command-Makes env k a s

-- The rest of a run after an input with the calls `ks` and the outcome `o`.
rest-book_after :
    (env : Env) (ks : List BookCall) (is : List Input) (s t : NetworkBackend)
    (o : Option NetworkBackend)
    → MakesAll env ks s o
    → ((u : NetworkBackend) → poll_swarm is u ≡ some t → book_after is u.peers ≡ some t.peers)
    → o >>= poll_swarm is ≡ some t
    → performed env ks s.peers >>= book_after is ≡ some t.peers
rest-book_after env ks is s t none p k e = ground arith
rest-book_after env ks is s t (some u) p k e = rw p (k u e)

pub poll_swarm-book_after :
    (is : List Input) (s t : NetworkBackend)
    → poll_swarm is s ≡ some t
    → book_after is s.peers ≡ some t.peers
unfolding poll_swarm
poll_swarm-book_after [] s t e = ground arith
poll_swarm-book_after (i ∷ is) s t e =
    rest-book_after (env_of i) (input_calls i) is s t (handle i s) (handle-Makes i s)
      (λ u. poll_swarm-book_after is u t) e
