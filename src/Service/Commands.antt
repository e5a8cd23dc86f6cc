-- ===== src/Service/Commands.antt =====
-- What the commands of `poll_swarm` of src/net/mod.rs keep.
use ipfs_embed.Common.{string_eq, refl, String, true, false}
use ipfs_embed.PeerInfo.{AddressSource}
use ipfs_embed.Events.{Env}
use ipfs_embed.AddressBook
use ipfs_embed.Behaviour
use ipfs_embed.Behaviour.{
  QueryId, query_id_eq, QueryChannel, Channel, Reply, Result, ok, err, GossipEvent, Protocols,
  NetworkBackend, NetworkError, Request, ask, dial, inject_mdns_event, inject_ping_event,
  inject_id_event, MdnsEvent, PingResult, IdentifyEvent,
}
use ipfs_embed.Behaviour.Queries.{insert_query, remove_query}
use ipfs_embed.Behaviour.Starting
use ipfs_embed.Behaviour.Starting.{start_or}
use ipfs_embed.Service.{NetworkCommand, Answers, command, handle_command, add_initial, listening}
use ipfs_embed.Service.Untouched.{
  Wire, Holds, Same-refl, Same-trans, if_ask-Same, ask-Same, start_or-Same, add_address-Same,
  initial-Same,
}
use ipfs_embed.Service.Kept.{Kept, is_accepted, Same-Kept}
use ipfs_embed.Service.Handled.{
  quiet_if-Kept, ask-Kept, guarded-Kept, listening-Same, query-Kept, subscribe-Kept, publish-Same,
  broadcast-Same, bootstrap-Same, unless_off,
}

module _ (w : Wire) (topic : String) where
  pub command-Kept :
      (env : Env) (k : NetworkCommand) (a : Answers) (s : NetworkBackend)
      → Holds (Kept w topic false (is_accepted (command env k a)) s) (handle_command env k a s)
  unfolding handle_command Behaviour.swarm_events Behaviour.remove_address Behaviour.prune_peers
      Behaviour.dial_address dial Starting.providers Starting.provide Starting.get_record
      Starting.put_record Starting.unprovide Starting.remove_record Starting.get_block Starting.sync
      Starting.cancel
  command-Kept env (NetworkCommand.listen_on addr tx) a s =
      let told = ask (Request.listen_on addr) (Behaviour.swarm_events a.channel s) in
      Same-Kept w topic true s (listening addr tx a.channel a.listener told) (
        Same-trans w topic s told (listening addr tx a.channel a.listener told)
          (ask-Same w topic (Request.listen_on addr) (Behaviour.swarm_events a.channel s) refl)
          (listening-Same w topic addr tx a.channel a.listener told))
  command-Kept env (NetworkCommand.add_external_address addr) a s =
      ask-Kept w topic (Request.add_external_address addr) s (λ b. refl)
  command-Kept env (NetworkCommand.add_address peer addr) a s =
      Same-Kept w topic true s _ (add_address-Same w topic env peer addr AddressSource.user s)
  command-Kept env (NetworkCommand.remove_address peer addr) a s =
      let removed = Behaviour.on_peers (AddressBook.remove_address env peer addr) s in
      Same-Kept w topic true s _ (
        if_ask-Same w topic s.protocols.kad (Request.kad_remove_address peer addr) removed
          (λ b. refl))
  command-Kept env (NetworkCommand.dial_address peer addr) a s =
      Same-Kept w topic true s _ (Same-refl w topic s)
  command-Kept env (NetworkCommand.prune_peers n) a s =
      Same-Kept w topic true s _ (Same-refl w topic s)
  command-Kept env (NetworkCommand.dial peer) a s = Same-Kept w topic true s _ (Same-refl w topic s)
  command-Kept env (NetworkCommand.ban peer) a s = ask-Kept w topic (Request.ban peer) s (λ b. refl)
  command-Kept env (NetworkCommand.unban peer) a s =
      ask-Kept w topic (Request.unban peer) s (λ b. refl)
  command-Kept env (NetworkCommand.bootstrap l tx) a s =
      let known = add_initial env l s in
      Same-Kept w topic true s (Starting.bootstrap a.started tx known) (
        Same-trans w topic s known (Starting.bootstrap a.started tx known)
          (initial-Same w topic env l s) (bootstrap-Same w topic a.started tx known))
  command-Kept env (NetworkCommand.providers key tx) a s =
      guarded-Kept w topic s.bootstrap_complete s.protocols.kad
        (insert_query (QueryId.kad a.query_id) (QueryChannel.get_providers tx)
          (ask (Request.kad_get_providers key) s))
        (Behaviour.send tx (Reply.peers (err NetworkError.not_bootstrapped)) s) s
        (ask-Same w topic (Request.kad_get_providers key) s refl) (Same-refl w topic s)
  command-Kept env (NetworkCommand.provide key tx) a s =
      let asked = ask (Request.kad_start_providing key) s in
      let started =
        start_or (QueryChannel.start_providing tx) tx NetworkError.kad_store a.started asked in
      guarded-Kept w topic s.bootstrap_complete s.protocols.kad started
        (Behaviour.send tx (Reply.unit (err NetworkError.not_bootstrapped)) s) s
        (Same-trans w topic s asked started
          (ask-Same w topic (Request.kad_start_providing key) s refl)
          (start_or-Same w topic (QueryChannel.start_providing tx) tx NetworkError.kad_store
            a.started asked))
        (Same-refl w topic s)
  command-Kept env (NetworkCommand.get_record key tx) a s =
      guarded-Kept w topic s.bootstrap_complete s.protocols.kad
        (insert_query (QueryId.kad a.query_id) (QueryChannel.get_record tx)
          (ask (Request.kad_get_record key) s))
        (Behaviour.send tx (Reply.records (err NetworkError.not_bootstrapped)) s) s
        (ask-Same w topic (Request.kad_get_record key) s refl) (Same-refl w topic s)
  command-Kept env (NetworkCommand.unprovide key) a s =
      quiet_if-Kept w topic s.protocols.kad (Request.kad_stop_providing key) s (λ b. refl)
  command-Kept env (NetworkCommand.remove_record key) a s =
      quiet_if-Kept w topic s.protocols.kad (Request.kad_remove_record key) s (λ b. refl)
  command-Kept env (NetworkCommand.put_record item tx) a s =
      let asked = ask (Request.kad_put_record item) s in
      let started =
        start_or (QueryChannel.put_record tx) tx NetworkError.kad_store a.started asked in
      guarded-Kept w topic s.bootstrap_complete s.protocols.kad started
        (Behaviour.send tx (Reply.unit (err NetworkError.not_bootstrapped)) s) s
        (Same-trans w topic s asked started (ask-Same w topic (Request.kad_put_record item) s refl)
          (start_or-Same w topic (QueryChannel.put_record tx) tx NetworkError.kad_store a.started
            asked))
        (Same-refl w topic s)
  command-Kept env (NetworkCommand.subscribe t tx) a s =
      let known = subscribe-Kept w topic t a.refused a.channel s in
      record {
        flag = known.flag;
        wires = known.wires;
        heard = known.heard;
        matched = known.matched;
      }
  command-Kept env (NetworkCommand.publish t m tx) a s =
      Same-Kept w topic true s _ (publish-Same w topic t m a.published s)
  command-Kept env (NetworkCommand.broadcast t m tx) a s =
      Same-Kept w topic true s _ (broadcast-Same w topic t m s)
  command-Kept env (NetworkCommand.get cid from tx) a s =
      query-Kept w topic tx a.channel (QueryChannel.get a.channel) (QueryId.bitswap a.query_id)
        (Request.bitswap_get cid from) s s.protocols.bitswap (λ b. refl)
  command-Kept env (NetworkCommand.sync cid from missing tx) a s =
      query-Kept w topic tx a.channel (QueryChannel.sync a.channel) (QueryId.bitswap a.query_id)
        (Request.bitswap_sync cid from missing) s s.protocols.bitswap (λ b. refl)
  command-Kept env (NetworkCommand.swarm_events tx) a s =
      Same-Kept w topic true s _ (Same-refl w topic s)
  command-Kept env (NetworkCommand.cancel_query (QueryId.kad id)) a s =
      Same-Kept w topic true s _ (Same-refl w topic s)
  command-Kept env (NetworkCommand.cancel_query (QueryId.bitswap id)) a s =
      unless_off w topic s.protocols.bitswap
        (ask (Request.bitswap_cancel id) (remove_query (QueryId.bitswap id) s)) s
        (ask-Same w topic (Request.bitswap_cancel id) (remove_query (QueryId.bitswap id) s) refl)
