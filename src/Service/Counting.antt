-- ===== src/Service/Counting.antt =====
-- How often the channels that `poll_swarm` of src/net/mod.rs is handed are answered.
use ipfs_embed.Common.{
  ℕ, ◌+◌, ◌≤◌, ◌≡◌, Bool, true, false, ◌&&◌, Option, none, some, List, [], ◌∷◌, ◌++◌, if◌then◌else◌,
  eqb, arith, ◌>>=◌, Option-cases, Bool-cases, inl, inr,
}
use ipfs_embed.Common.Assoc.{Assoc, get, insert, remove}
use ipfs_embed.Events.{Env}
use ipfs_embed.Behaviour
use ipfs_embed.Behaviour.{
  QueryId, query_id_eq, QueryChannel, Channel, Reply, Result, Done, NetworkBackend, ask, send,
  add_address, remove_address, dial, inject_mdns_event, add_discovered, inject_ping_event,
  inject_id_event, MdnsEvent, PingResult, IdentifyEvent, with_peers,
}
use ipfs_embed.Behaviour.Queries.{
  QueryResult, done, failed, answer, send_to, as_bootstrap, as_closest_peers, as_providers,
  as_start_providing, as_get_record, as_put_record, as_sync, bootstrapped, inject_query_result,
  remove_query,
}

abbrev pub channel_of : QueryChannel → Channel
channel_of (QueryChannel.get ch) = ch
channel_of (QueryChannel.sync ch) = ch
channel_of (QueryChannel.bootstrap ch) = ch
channel_of (QueryChannel.get_closest_peers ch) = ch
channel_of (QueryChannel.get_providers ch) = ch
channel_of (QueryChannel.start_providing ch) = ch
channel_of (QueryChannel.get_record ch) = ch
channel_of (QueryChannel.put_record ch) = ch

-- The patterns on the table's entries read the entry's own channel.
abbrev pub ReadsOwn : (QueryChannel → Option Channel) → Type 0
ReadsOwn pattern = (ch : QueryChannel) (tx : Channel) → pattern ch ≡ some tx → tx ≡ channel_of ch

is_bootstrap : ReadsOwn as_bootstrap
is_bootstrap (QueryChannel.get ch) tx e = cc
is_bootstrap (QueryChannel.sync ch) tx e = cc
is_bootstrap (QueryChannel.bootstrap ch) tx e = cc
is_bootstrap (QueryChannel.get_closest_peers ch) tx e = cc
is_bootstrap (QueryChannel.get_providers ch) tx e = cc
is_bootstrap (QueryChannel.start_providing ch) tx e = cc
is_bootstrap (QueryChannel.get_record ch) tx e = cc
is_bootstrap (QueryChannel.put_record ch) tx e = cc

is_closest_peers : ReadsOwn as_closest_peers
is_closest_peers (QueryChannel.get ch) tx e = cc
is_closest_peers (QueryChannel.sync ch) tx e = cc
is_closest_peers (QueryChannel.bootstrap ch) tx e = cc
is_closest_peers (QueryChannel.get_closest_peers ch) tx e = cc
is_closest_peers (QueryChannel.get_providers ch) tx e = cc
is_closest_peers (QueryChannel.start_providing ch) tx e = cc
is_closest_peers (QueryChannel.get_record ch) tx e = cc
is_closest_peers (QueryChannel.put_record ch) tx e = cc

is_providers : ReadsOwn as_providers
is_providers (QueryChannel.get ch) tx e = cc
is_providers (QueryChannel.sync ch) tx e = cc
is_providers (QueryChannel.bootstrap ch) tx e = cc
is_providers (QueryChannel.get_closest_peers ch) tx e = cc
is_providers (QueryChannel.get_providers ch) tx e = cc
is_providers (QueryChannel.start_providing ch) tx e = cc
is_providers (QueryChannel.get_record ch) tx e = cc
is_providers (QueryChannel.put_record ch) tx e = cc

is_start_providing : ReadsOwn as_start_providing
is_start_providing (QueryChannel.get ch) tx e = cc
is_start_providing (QueryChannel.sync ch) tx e = cc
is_start_providing (QueryChannel.bootstrap ch) tx e = cc
is_start_providing (QueryChannel.get_closest_peers ch) tx e = cc
is_start_providing (QueryChannel.get_providers ch) tx e = cc
is_start_providing (QueryChannel.start_providing ch) tx e = cc
is_start_providing (QueryChannel.get_record ch) tx e = cc
is_start_providing (QueryChannel.put_record ch) tx e = cc

is_get_record : ReadsOwn as_get_record
is_get_record (QueryChannel.get ch) tx e = cc
is_get_record (QueryChannel.sync ch) tx e = cc
is_get_record (QueryChannel.bootstrap ch) tx e = cc
is_get_record (QueryChannel.get_closest_peers ch) tx e = cc
is_get_record (QueryChannel.get_providers ch) tx e = cc
is_get_record (QueryChannel.start_providing ch) tx e = cc
is_get_record (QueryChannel.get_record ch) tx e = cc
is_get_record (QueryChannel.put_record ch) tx e = cc

is_put_record : ReadsOwn as_put_record
is_put_record (QueryChannel.get ch) tx e = cc
is_put_record (QueryChannel.sync ch) tx e = cc
is_put_record (QueryChannel.bootstrap ch) tx e = cc
is_put_record (QueryChannel.get_closest_peers ch) tx e = cc
is_put_record (QueryChannel.get_providers ch) tx e = cc
is_put_record (QueryChannel.start_providing ch) tx e = cc
is_put_record (QueryChannel.get_record ch) tx e = cc
is_put_record (QueryChannel.put_record ch) tx e = cc

pub is_sync : ReadsOwn as_sync
is_sync (QueryChannel.get ch) tx e = cc
is_sync (QueryChannel.sync ch) tx e = cc
is_sync (QueryChannel.bootstrap ch) tx e = cc
is_sync (QueryChannel.get_closest_peers ch) tx e = cc
is_sync (QueryChannel.get_providers ch) tx e = cc
is_sync (QueryChannel.start_providing ch) tx e = cc
is_sync (QueryChannel.get_record ch) tx e = cc
is_sync (QueryChannel.put_record ch) tx e = cc

-- Every reply but `progress` is the last on its channel.
abbrev pub is_final : Reply → Bool
is_final (Reply.progress n) = false
is_final _ = true

module _ (c : Channel) where
  abbrev pub count : Bool → ℕ
  count b = if b then 1 else 0

  -- The waiting queries that answer on the channel, and the final replies on it.
  abbrev pub pending : Assoc QueryId QueryChannel → ℕ
  pending [] = 0
  pending ((id, ch) ∷ q) = count (eqb (channel_of ch) c) + pending q

  abbrev pub finals : List (Channel × Reply) → ℕ
  finals [] = 0
  finals ((tx, r) ∷ rs) = count (eqb tx c && is_final r) + finals rs

  abbrev pub answers : NetworkBackend → ℕ
  answers s = finals s.replies + pending s.queries

  pub finals-append :
      (rs : List (Channel × Reply)) (tx : Channel) (r : Reply)
      → finals (rs ++ (tx, r) ∷ []) ≡ finals rs + count (eqb tx c && is_final r)
  finals-append [] tx r = ground arith
  finals-append ((t, x) ∷ rs) tx r = ground (arith, finals-append rs tx r)

  pub pending-insert :
      (id : QueryId) (ch : QueryChannel) (q : Assoc QueryId QueryChannel)
      → pending (insert id ch q) ≤ pending q + count (eqb (channel_of ch) c)
  unfolding insert
  pending-insert id ch [] = ground arith
  pending-insert id ch ((i, x) ∷ q) = ground (arith, pending-insert id ch q)

  abbrev pub waiting : Option QueryChannel → ℕ
  waiting none = 0
  waiting (some ch) = count (eqb (channel_of ch) c)

  pub pending-remove_le :
      (id : QueryId) (q : Assoc QueryId QueryChannel) → pending (remove id q) ≤ pending q
  unfolding remove
  pending-remove_le id [] = ground arith
  pending-remove_le id ((i, x) ∷ q) = ground (arith, pending-remove_le id q)

  pub pending-remove :
      (id : QueryId) (q : Assoc QueryId QueryChannel)
      → pending (remove id q) + waiting (get id q) ≤ pending q
  unfolding remove get
  pending-remove id [] = ground arith
  pending-remove id ((i, x) ∷ q) = elim (Bool-cases (query_id_eq.beq i id)) [
    | inl t ↦ rw t (ground (arith, pending-remove_le id q))
    | inr f ↦ rw f (ground (arith, pending-remove id q))
  ]

  pub send_to-le :
      (pattern : QueryChannel → Option Channel) (o : Option QueryChannel) (r : Reply)
      (s : NetworkBackend)
      → ReadsOwn pattern
      → answers (send_to (o >>= pattern) r s) ≤ answers s + waiting o
  send_to-le pattern none r s h = ground arith
  send_to-le pattern (some ch) r s h = elim (Option-cases (pattern ch)) [
    | inl e ↦ rw (e, send_to) (ground arith)
    | inr (tx, e) ↦ rw (e, send_to) (ground (arith, h ch tx e, finals-append s.replies tx r))
  ]

  answer-le :
      (pattern : QueryChannel → Option Channel) (id : ℕ) (r : Reply) (s : NetworkBackend)
      → ReadsOwn pattern
      → answers (answer pattern id r s) ≤ answers s
  unfolding answer
  answer-le pattern id r s h =
      let q = get (QueryId.kad id) s.queries in
      ground (
        arith,
        pending-remove (QueryId.kad id) s.queries,
        send_to-le pattern q r (remove_query (QueryId.kad id) s) h,
      )

  pub result-le :
      (env : Env) (id : ℕ) (r : QueryResult) (s : NetworkBackend)
      → answers (inject_query_result env id r s) ≤ answers s
  unfolding inject_query_result bootstrapped
  result-le env id (QueryResult.bootstrap (done n)) s =
      let known =
        answer-le as_bootstrap id (Reply.unit (Behaviour.Result.ok tt))
          (record s { bootstrap_complete = true }) is_bootstrap in
      ground (arith, known)
  result-le env id (QueryResult.bootstrap (failed e)) s = answer-le as_bootstrap id _ s is_bootstrap
  result-le env id (QueryResult.get_closest_peers (done ps)) s =
      answer-le as_closest_peers id _ s is_closest_peers
  result-le env id (QueryResult.get_closest_peers (failed e)) s =
      answer-le as_closest_peers id _ s is_closest_peers
  result-le env id (QueryResult.get_providers (done ps)) s =
      answer-le as_providers id _ s is_providers
  result-le env id (QueryResult.get_providers (failed e)) s =
      answer-le as_providers id _ s is_providers
  result-le env id (QueryResult.start_providing (done x)) s =
      answer-le as_start_providing id _ s is_start_providing
  result-le env id (QueryResult.start_providing (failed e)) s =
      answer-le as_start_providing id _ s is_start_providing
  result-le env id (QueryResult.republish_provider r) s = ground arith
  result-le env id (QueryResult.get_record (done rs)) s =
      answer-le as_get_record id _ s is_get_record
  result-le env id (QueryResult.get_record (failed e)) s =
      answer-le as_get_record id _ s is_get_record
  result-le env id (QueryResult.put_record (done x)) s =
      answer-le as_put_record id _ s is_put_record
  result-le env id (QueryResult.put_record (failed e)) s =
      answer-le as_put_record id _ s is_put_record
  result-le env id (QueryResult.republish_record r) s = ground arith
