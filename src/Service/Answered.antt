-- ===== src/Service/Answered.antt =====
-- A query's way through src/net/mod.rs and src/net/behaviour.rs: its command, its place in the table,
-- and the event that answers the channel that waits for it.
use ipfs_embed.Common.{ℕ, ◌≡◌, refl, ap, ◌∙◌, Option, none, some, [], ◌∷◌, ◌++◌}
use ipfs_embed.Common.Assoc
use ipfs_embed.Common.Assoc.{get-remove_self, get-insert_self}
use ipfs_embed.Events.{Env}
use ipfs_embed.Behaviour.{
  QueryId, QueryChannel, query_id_eq, send, ask, Request, Channel, ok, err, Done, Reply,
  NetworkError, NetworkBackend,
}
use ipfs_embed.Behaviour.Queries.{
  Outcome, done, failed, BitswapEvent, as_result, as_providers, as_get_record, as_start_providing,
  as_put_record, answer, completed, remove_query, insert_query, inject_kad_event,
  inject_query_result, inject_bitswap_event,
}
use ipfs_embed.Behaviour.Starting
use ipfs_embed.Service.{SwarmEvent, Answers, handle_command, handle_event}
use ipfs_embed.Service.Asked.{
  Query, providers, get_record, provide, put_record, get, sync, command_of, id_of, channel_of,
  event_of, reply_of, IsServed, entry_of,
}

-- The end of a query in the table.
abbrev Ended : NetworkBackend → Option NetworkBackend → QueryId → Channel → Reply → Type 0
Ended s o id tx r =
    (s₃ : NetworkBackend) × (o ≡ some s₃)
    × (s₃.replies ≡ s.replies ++ (tx, r) ∷ [])
    × (Assoc.get id s₃.queries ≡ none)

answer-Ended :
    (pattern : QueryChannel → Option Channel) (id : ℕ) (r : Reply) (s : NetworkBackend)
    (ch : QueryChannel) (tx : Channel)
    → Assoc.get (QueryId.kad id) s.queries ≡ some ch
    → pattern ch ≡ some tx
    → Ended s (some (answer pattern id r s)) (QueryId.kad id) tx r
unfolding answer
answer-Ended pattern id r s ch tx h p = (
  answer pattern id r s,
  refl,
  rw (h, p) refl,
  rw (h, p) (get-remove_self (QueryId.kad id) s.queries),
)

complete-Ended :
    (env : Env) (id : ℕ) (o : Outcome Done) (s : NetworkBackend) (ch : QueryChannel) (tx : Channel)
    (r : Reply)
    → Assoc.get (QueryId.bitswap id) s.queries ≡ some ch
    → ((t : NetworkBackend)
        → completed (some ch) (as_result NetworkError.bitswap_failed o) t ≡ send tx r t)
    → Ended s
        (handle_event env (SwarmEvent.bitswap (BitswapEvent.complete id o)) s)
        (QueryId.bitswap id)
        tx
        r
unfolding handle_event inject_bitswap_event
complete-Ended env id o s ch tx r h p = (
  send tx r (remove_query (QueryId.bitswap id) s),
  rw h (ap some (p (remove_query (QueryId.bitswap id) s))),
  refl,
  get-remove_self (QueryId.bitswap id) s.queries,
)

-- The event that ends a query of the table answers its channel.
event-Ended :
    (env : Env) (q : Query) (id : ℕ) (tx made : Channel) (s : NetworkBackend)
    → Assoc.get (id_of q id) s.queries ≡ some (entry_of q tx made)
    → Ended s (handle_event env (event_of q id) s) (id_of q id) (channel_of q tx made) (reply_of q)
unfolding handle_event inject_kad_event inject_query_result
event-Ended env (providers key (done ps)) id tx made s h =
    answer-Ended as_providers id (Reply.peers (ok ps)) s (QueryChannel.get_providers tx) tx h refl
event-Ended env (providers key (failed e)) id tx made s h =
    answer-Ended as_providers id (Reply.peers (err (NetworkError.kad_get_providers e))) s
      (QueryChannel.get_providers tx) tx h refl
event-Ended env (get_record key (done rs)) id tx made s h =
    answer-Ended as_get_record id (Reply.records (ok rs)) s (QueryChannel.get_record tx) tx h refl
event-Ended env (get_record key (failed e)) id tx made s h =
    answer-Ended as_get_record id (Reply.records (err (NetworkError.kad_get_record e))) s
      (QueryChannel.get_record tx) tx h refl
event-Ended env (provide key (done x)) id tx made s h =
    answer-Ended as_start_providing id (Reply.unit (ok x)) s (QueryChannel.start_providing tx) tx h
      refl
event-Ended env (provide key (failed e)) id tx made s h =
    answer-Ended as_start_providing id (Reply.unit (err (NetworkError.kad_add_provider e))) s
      (QueryChannel.start_providing tx) tx h refl
event-Ended env (put_record item (done x)) id tx made s h =
    answer-Ended as_put_record id (Reply.unit (ok x)) s (QueryChannel.put_record tx) tx h refl
event-Ended env (put_record item (failed e)) id tx made s h =
    answer-Ended as_put_record id (Reply.unit (err (NetworkError.kad_put_record e))) s
      (QueryChannel.put_record tx) tx h refl
event-Ended env (get cid from (done x)) id tx made s h =
    complete-Ended env id (done x) s (QueryChannel.get made) made (Reply.unit (ok x)) h (λ t. refl)
event-Ended env (get cid from (failed e)) id tx made s h =
    complete-Ended env id (failed e) s (QueryChannel.get made) made
      (Reply.unit (err (NetworkError.bitswap_failed e))) h (λ t. refl)
event-Ended env (sync cid from missing (done x)) id tx made s h =
    complete-Ended env id (done x) s (QueryChannel.sync made) made (Reply.complete (ok x)) h
      (λ t. refl)
event-Ended env (sync cid from missing (failed e)) id tx made s h =
    complete-Ended env id (failed e) s (QueryChannel.sync made) made
      (Reply.complete (err (NetworkError.bitswap_failed e))) h (λ t. refl)

-- What enters a query into the table.
abbrev Entered : Option NetworkBackend → QueryId → QueryChannel → Type 0
Entered o id ch = (s₁ : NetworkBackend) × (o ≡ some s₁) × (Assoc.get id s₁.queries ≡ some ch)

command-Entered :
    (env : Env) (q : Query) (a : Answers) (tx : Channel) (s : NetworkBackend)
    → IsServed q s
    → a.started ≡ done a.query_id
    → Entered
        (handle_command env (command_of q tx) a s)
        (id_of q a.query_id)
        (entry_of q tx a.channel)
unfolding handle_command Starting.providers Starting.get_record Starting.provide Starting.put_record
    Starting.get_block Starting.sync
command-Entered env (providers key o) a tx s h j = (
  insert_query (QueryId.kad a.query_id) (QueryChannel.get_providers tx)
      (ask (Request.kad_get_providers key) s),
  rw (h.0, h.1) refl,
  get-insert_self (QueryId.kad a.query_id) (QueryChannel.get_providers tx) s.queries,
)
command-Entered env (get_record key o) a tx s h j = (
  insert_query (QueryId.kad a.query_id) (QueryChannel.get_record tx)
      (ask (Request.kad_get_record key) s),
  rw (h.0, h.1) refl,
  get-insert_self (QueryId.kad a.query_id) (QueryChannel.get_record tx) s.queries,
)
command-Entered env (provide key o) a tx s h j = (
  insert_query (QueryId.kad a.query_id) (QueryChannel.start_providing tx)
      (ask (Request.kad_start_providing key) s),
  rw (h.0, h.1, j) refl,
  get-insert_self (QueryId.kad a.query_id) (QueryChannel.start_providing tx) s.queries,
)
command-Entered env (put_record item o) a tx s h j = (
  insert_query (QueryId.kad a.query_id) (QueryChannel.put_record tx)
      (ask (Request.kad_put_record item) s),
  rw (h.0, h.1, j) refl,
  get-insert_self (QueryId.kad a.query_id) (QueryChannel.put_record tx) s.queries,
)
command-Entered env (get cid from o) a tx s h j = (
  send tx (Reply.query (QueryId.bitswap a.query_id) a.channel) (
      insert_query (QueryId.bitswap a.query_id) (QueryChannel.get a.channel)
        (ask (Request.bitswap_get cid from) s)),
  rw h refl,
  get-insert_self (QueryId.bitswap a.query_id) (QueryChannel.get a.channel) s.queries,
)
command-Entered env (sync cid from missing o) a tx s h j = (
  send tx (Reply.query (QueryId.bitswap a.query_id) a.channel) (
      insert_query (QueryId.bitswap a.query_id) (QueryChannel.sync a.channel)
        (ask (Request.bitswap_sync cid from missing) s)),
  rw h refl,
  get-insert_self (QueryId.bitswap a.query_id) (QueryChannel.sync a.channel) s.queries,
)

module _ (env env₂ : Env) (a : Answers) (tx : Channel) where
  -- The command of a served query that its protocol starts is handled, and whatever the loop does
  -- next, as long as the query stays in the table as it is: when its end comes, the channel that waits
  -- for it gets the outcome, no other reply is sent, and the query leaves the table.
  pub query-answered :
      (q : Query) (s : NetworkBackend)
      → IsServed q s
      → a.started ≡ done a.query_id
      → (s₁ : NetworkBackend) × (handle_command env (command_of q tx) a s ≡ some s₁)
        × ((s₂ : NetworkBackend)
            → Assoc.get (id_of q a.query_id) s₂.queries ≡ Assoc.get (id_of q a.query_id) s₁.queries
            → (s₃ : NetworkBackend) × (handle_event env₂ (event_of q a.query_id) s₂ ≡ some s₃)
              × (s₃.replies ≡ s₂.replies ++ (channel_of q tx a.channel, reply_of q) ∷ [])
              × (Assoc.get (id_of q a.query_id) s₃.queries ≡ none))
  query-answered q s h j =
      let e = command-Entered env q a tx s h j in
      (e.0, e.1, λ s₂ k. event-Ended env₂ q a.query_id tx a.channel s₂ (k ∙ e.2))
