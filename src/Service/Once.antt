-- ===== src/Service/Once.antt =====
-- The commands of `poll_swarm` of src/net/mod.rs, and the answers on the channels that they hand in.
use mathlib.Core.Path.{subst}
use ipfs_embed.Common.{
  ℕ, ◌+◌, ◌≤◌, ◌≡◌, refl, ap, String, Bool, true, false, Option, none, some, List, [], ◌∷◌, eqb,
  if◌then◌else◌, arith, ◌>>=◌,
}
use ipfs_embed.Multiaddr.{Multiaddr}
use ipfs_embed.PeerInfo.{AddressSource}
use ipfs_embed.Events.{Env}
use ipfs_embed.Behaviour
use ipfs_embed.Behaviour.{
  QueryId, query_id_eq, QueryChannel, Channel, Reply, Result, NetworkBackend, NetworkError, dial,
  add_address, ask, Request,
}
use ipfs_embed.Behaviour.Queries.{Outcome, done, failed, insert_query}
use ipfs_embed.Behaviour.Starting
use ipfs_embed.Behaviour.Starting.{start_or}
use ipfs_embed.Behaviour.Topics
use ipfs_embed.Behaviour.Topics.{Published, subscribe_first}
use ipfs_embed.Service.{
  NetworkCommand, Answers, Input, event, command, handle_event, handle_command, handle, poll_swarm,
  add_initial, listening, reply_query,
}
use ipfs_embed.Service.Counting.{
  channel_of, count, pending, finals, answers, finals-append, pending-insert, pending-remove_le,
}
use ipfs_embed.Service.Quiet.{
  handed, handed_all, Within, event-Within, initial-same, add_address-same,
}

module _ (c : Channel) where
  send-le :
      (tx : Channel) (r : Reply) (s : NetworkBackend)
      → answers c (Behaviour.send tx r s) ≤ answers c s + count c (eqb tx c)
  send-le tx r s = ground (arith, finals-append c s.replies tx r)

  start_or-le :
      (q : QueryChannel) (tx : Channel) (error : String → NetworkError) (o : Outcome ℕ)
      (s : NetworkBackend)
      → channel_of q ≡ tx
      → answers c (start_or q tx error o s) ≤ answers c s + count c (eqb tx c)
  start_or-le q tx error (done id) s e =
      ground (arith, pending-insert c (QueryId.kad id) q s.queries)
  start_or-le q tx error (failed m) s e = send-le tx (Reply.unit (Result.err (error m))) s

  listening-le :
      (addr : Multiaddr) (tx rx : Channel) (o : Outcome ℕ) (s : NetworkBackend)
      → answers c (listening addr tx rx o s) ≤ answers c s + count c (eqb tx c)
  listening-le addr tx rx (done id) s = ground arith
  listening-le addr tx rx (failed e) s = send-le tx (Reply.listen_failed addr e) s

  subscribe-same :
      (topic : String) (refused : Option String) (tx : Channel) (s : NetworkBackend)
      → answers c (Topics.subscribe topic refused tx s).0 ≡ answers c s
  unfolding Topics.subscribe subscribe_first
  subscribe-same topic refused tx s = ground arith

  publish-same :
      (topic : String) (m : List ℕ) (p : Published) (s : NetworkBackend)
      → answers c (Topics.publish topic m p s).0 ≡ answers c s
  unfolding Topics.publish
  publish-same topic m p s = ground arith

  broadcast-same :
      (topic : String) (m : List ℕ) (s : NetworkBackend)
      → answers c (Topics.broadcast topic m s).0 ≡ answers c s
  unfolding Topics.broadcast
  broadcast-same topic m s = ground arith

  query-Within :
      (tx rx : Channel) (q : QueryChannel) (id : QueryId) (s : NetworkBackend) (on : Bool)
      → channel_of q ≡ rx
      → Within c
          (answers c s + (count c (eqb tx c) + count c (eqb rx c)))
          (reply_query tx rx (if on then some (insert_query id q s, id) else none))
  query-Within tx rx q id s false e = tt
  query-Within tx rx q id s true e =
      let sent = send-le tx (Reply.query id rx) (insert_query id q s) in
      ground (arith, sent, pending-insert c id q s.queries)

  command-Within :
      (env : Env) (k : NetworkCommand) (a : Answers) (s : NetworkBackend)
      → Within c (answers c s + handed c (command env k a)) (handle_command env k a s)
  unfolding handle_command Behaviour.swarm_events Behaviour.remove_address Behaviour.prune_peers
      Behaviour.dial_address dial Starting.bootstrap Starting.providers Starting.provide
      Starting.get_record Starting.put_record Starting.unprovide Starting.remove_record
      Starting.get_block Starting.sync Starting.cancel
  command-Within env (NetworkCommand.listen_on addr tx) a s =
      listening-le addr tx a.channel a.listener _
  command-Within env (NetworkCommand.add_external_address addr) a s = ground arith
  command-Within env (NetworkCommand.add_address peer addr) a s =
      ground (arith, add_address-same c env peer addr AddressSource.user s)
  command-Within env (NetworkCommand.remove_address peer addr) a s = ground arith
  command-Within env (NetworkCommand.dial_address peer addr) a s = ground arith
  command-Within env (NetworkCommand.prune_peers n) a s = ground arith
  command-Within env (NetworkCommand.dial peer) a s = ground arith
  command-Within env (NetworkCommand.ban peer) a s = ground arith
  command-Within env (NetworkCommand.unban peer) a s = ground arith
  command-Within env (NetworkCommand.bootstrap l tx) a s =
      let t = add_initial env l s in
      let asked = ask Request.kad_bootstrap t in
      let known =
        start_or-le (QueryChannel.bootstrap tx) tx NetworkError.no_known_peers a.started asked
          refl in
      let refused = send-le tx (Reply.unit (Result.err NetworkError.not_bootstrapped)) t in
      ground (arith, known, refused, initial-same c env l s)
  command-Within env (NetworkCommand.providers key tx) a s =
      let refused = send-le tx (Reply.peers (Result.err NetworkError.not_bootstrapped)) s in
      let known =
        pending-insert c (QueryId.kad a.query_id) (QueryChannel.get_providers tx) s.queries in
      ground (arith, known, refused)
  command-Within env (NetworkCommand.provide key tx) a s =
      let asked = ask (Request.kad_start_providing key) s in
      let known =
        start_or-le (QueryChannel.start_providing tx) tx NetworkError.kad_store a.started asked
          refl in
      let refused = send-le tx (Reply.unit (Result.err NetworkError.not_bootstrapped)) s in
      ground (arith, known, refused)
  command-Within env (NetworkCommand.get_record key tx) a s =
      let refused = send-le tx (Reply.records (Result.err NetworkError.not_bootstrapped)) s in
      let known =
        pending-insert c (QueryId.kad a.query_id) (QueryChannel.get_record tx) s.queries in
      ground (arith, known, refused)
  command-Within env (NetworkCommand.unprovide key) a s = ground arith
  command-Within env (NetworkCommand.remove_record key) a s = ground arith
  command-Within env (NetworkCommand.put_record item tx) a s =
      let asked = ask (Request.kad_put_record item) s in
      let known =
        start_or-le (QueryChannel.put_record tx) tx NetworkError.kad_store a.started asked refl in
      let refused = send-le tx (Reply.unit (Result.err NetworkError.not_bootstrapped)) s in
      ground (arith, known, refused)
  command-Within env (NetworkCommand.subscribe topic tx) a s =
      let r = Topics.subscribe topic a.refused a.channel s in
      ground
        (arith, send-le tx (Reply.subscription r.1) r.0, subscribe-same topic a.refused a.channel s)
  command-Within env (NetworkCommand.publish topic m tx) a s =
      let r = Topics.publish topic m a.published s in
      ground (arith, send-le tx (Reply.unit r.1) r.0, publish-same topic m a.published s)
  command-Within env (NetworkCommand.broadcast topic m tx) a s =
      let r = Topics.broadcast topic m s in
      ground (arith, send-le tx (Reply.unit r.1) r.0, broadcast-same topic m s)
  command-Within env (NetworkCommand.get cid from tx) a s =
      query-Within tx a.channel (QueryChannel.get a.channel) (QueryId.bitswap a.query_id)
        (ask (Request.bitswap_get cid from) s) s.protocols.bitswap refl
  command-Within env (NetworkCommand.sync cid from missing tx) a s =
      query-Within tx a.channel (QueryChannel.sync a.channel) (QueryId.bitswap a.query_id)
        (ask (Request.bitswap_sync cid from missing) s) s.protocols.bitswap refl
  command-Within env (NetworkCommand.swarm_events tx) a s =
      ground (arith, send-le tx (Reply.events a.channel) (Behaviour.swarm_events a.channel s))
  command-Within env (NetworkCommand.cancel_query (QueryId.kad id)) a s =
      ground (arith, pending-remove_le c (QueryId.kad id) s.queries)
  command-Within env (NetworkCommand.cancel_query (QueryId.bitswap id)) a s =
      ground (arith, pending-remove_le c (QueryId.bitswap id) s.queries)

  handle-Within :
      (i : Input) (s : NetworkBackend) → Within c (answers c s + handed c i) (handle i s)
  unfolding handle
  handle-Within (event env e) s = weaken (handle_event env e s) (event-Within c env e s)
    where
      weaken : (o : Option NetworkBackend) → Within c (answers c s) o → Within c (answers c s + 0) o
      weaken none w = tt
      weaken (some t) w = ground (arith, w)
  handle-Within (command env k a) s = command-Within env k a s

  poll_swarm-Within :
      (is : List Input) (s : NetworkBackend)
      → Within c (answers c s + handed_all c is) (poll_swarm is s)
  unfolding poll_swarm
  poll_swarm-Within [] s = ground arith
  poll_swarm-Within (i ∷ is) s = go (handle i s) (handle-Within i s) (λ t. poll_swarm-Within is t)
    where
      later :
          (t : NetworkBackend) (o : Option NetworkBackend)
          → answers c t ≤ answers c s + handed c i
          → Within c (answers c t + handed_all c is) o
          → Within c (answers c s + (handed c i + handed_all c is)) o
      later t none le w = tt
      later t (some u) le w = ground (arith, le, w)

      go :
          (o : Option NetworkBackend)
          → Within c (answers c s + handed c i) o
          → ((t : NetworkBackend) → Within c (answers c t + handed_all c is) (poll_swarm is t))
          → Within c (answers c s + (handed c i + handed_all c is)) (o >>= poll_swarm is)
      go none w k = tt
      go (some t) w k = later t (poll_swarm is t) w (k t)

-- In a run of the loop from a state with no reply sent and no query waiting, the final replies on a
-- channel, together with the queries that then still wait for an answer on it, are at most as many
-- as the times that the commands of the run handed the channel in.
pub finals-poll_swarm :
    (c : Channel) (is : List Input) (s t : NetworkBackend)
    → s.replies ≡ []
    → s.queries ≡ []
    → poll_swarm is s ≡ some t
    → finals c t.replies + pending c t.queries ≤ handed_all c is
finals-poll_swarm c is s t r q e =
    let w = subst (Within c (answers c s + handed_all c is)) e (poll_swarm-Within c is s) in
    ground (arith, w, ap (finals c) r, ap (pending c) q)
