-- ===== src/Behaviour/Starting.antt =====
-- The methods of src/net/behaviour.rs that start and cancel queries: each is handed the channel for
-- its answer.
use ipfs_embed.Common.{ℕ, String, Option, none, some, List, if◌then◌else◌}
use ipfs_embed.Multiaddr.{PeerId}
use ipfs_embed.Behaviour.{
  QueryId, QueryChannel, Channel, Key, Cid, Record, NetworkError, err, Reply, Request,
  NetworkBackend, ask, send,
}
use ipfs_embed.Behaviour.Queries.{Outcome, done, failed, insert_query, remove_query}

-- A query that Kademlia started, or the error of one that it refused.
abbrev pub start_or :
    QueryChannel → Channel → (String → NetworkError) → Outcome ℕ → NetworkBackend → NetworkBackend
start_or q tx error (done id) s = insert_query (QueryId.kad id) q s
start_or q tx error (failed e) s = send tx (Reply.unit (err (error e))) s

unfoldable pub bootstrap : Outcome ℕ → Channel → NetworkBackend → NetworkBackend
bootstrap started tx s =
    if s.protocols.kad
    then start_or (QueryChannel.bootstrap tx) tx NetworkError.no_known_peers started
        (ask Request.kad_bootstrap s)
    else send tx (Reply.unit (err NetworkError.not_bootstrapped)) s

unfoldable pub provide : Key → Outcome ℕ → Channel → NetworkBackend → NetworkBackend
provide key started tx s =
    if s.bootstrap_complete
    then if s.protocols.kad
      then start_or (QueryChannel.start_providing tx) tx NetworkError.kad_store started
          (ask (Request.kad_start_providing key) s)
      else s
    else send tx (Reply.unit (err NetworkError.not_bootstrapped)) s

unfoldable pub unprovide : Key → NetworkBackend → NetworkBackend
unprovide key s = if s.protocols.kad then ask (Request.kad_stop_providing key) s else s

unfoldable pub providers : Key → ℕ → Channel → NetworkBackend → NetworkBackend
providers key id tx s =
    if s.bootstrap_complete
    then if s.protocols.kad
      then insert_query (QueryId.kad id) (QueryChannel.get_providers tx)
          (ask (Request.kad_get_providers key) s)
      else s
    else send tx (Reply.peers (err NetworkError.not_bootstrapped)) s

unfoldable pub get_record : Key → ℕ → Channel → NetworkBackend → NetworkBackend
get_record key id tx s =
    if s.bootstrap_complete
    then if s.protocols.kad
      then insert_query (QueryId.kad id) (QueryChannel.get_record tx)
          (ask (Request.kad_get_record key) s)
      else s
    else send tx (Reply.records (err NetworkError.not_bootstrapped)) s

unfoldable pub put_record : Record → Outcome ℕ → Channel → NetworkBackend → NetworkBackend
put_record item started tx s =
    if s.bootstrap_complete
    then if s.protocols.kad
      then start_or (QueryChannel.put_record tx) tx NetworkError.kad_store started
          (ask (Request.kad_put_record item) s)
      else s
    else send tx (Reply.unit (err NetworkError.not_bootstrapped)) s

unfoldable pub remove_record : Key → NetworkBackend → NetworkBackend
remove_record key s = if s.protocols.kad then ask (Request.kad_remove_record key) s else s

-- Bitswap's methods: `none` is the panic where it is off. `tx` is the channel made, `id` the query
-- id that bitswap gives.
unfoldable pub get_block :
    Cid → List PeerId → ℕ → Channel → NetworkBackend → Option (NetworkBackend × QueryId)
get_block cid from id tx s =
    if s.protocols.bitswap
    then some (
      insert_query (QueryId.bitswap id) (QueryChannel.get tx)
          (ask (Request.bitswap_get cid from) s),
      QueryId.bitswap id,
    )
    else none

unfoldable pub sync :
    Cid → List PeerId → List Cid → ℕ → Channel → NetworkBackend → Option (NetworkBackend × QueryId)
sync cid from missing id tx s =
    if s.protocols.bitswap
    then some (
      insert_query (QueryId.bitswap id) (QueryChannel.sync tx)
          (ask (Request.bitswap_sync cid from missing) s),
      QueryId.bitswap id,
    )
    else none

unfoldable pub cancel : QueryId → NetworkBackend → Option NetworkBackend
cancel (QueryId.kad id) s = some (remove_query (QueryId.kad id) s)
cancel (QueryId.bitswap id) s =
    if s.protocols.bitswap
    then some (ask (Request.bitswap_cancel id) (remove_query (QueryId.bitswap id) s))
    else none
