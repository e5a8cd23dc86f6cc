-- ===== src/Behaviour/Queries.antt =====
-- The queries of src/net/behaviour.rs: the table of those that wait for an answer, and
-- the events of Kademlia and bitswap that answer them.
use ipfs_embed.Common.{ℕ, String, true, Option, none, some, List, if◌then◌else◌, eqb, ◌>>=◌}
use ipfs_embed.Common.Assoc.{get, insert, remove}
use ipfs_embed.Multiaddr.{PeerId}
use ipfs_embed.Events.{Env}
use ipfs_embed.Events
use ipfs_embed.AddressBook
use ipfs_embed.Behaviour.{
  QueryId, query_id_eq, QueryChannel, Channel, Record, NetworkError, Result, ok, err, Done, Reply,
  NetworkBackend, send, on_peers,
}

-- What a protocol answers: a value, or the text of its error.
pub data Outcome {ℓ} (A : Type ℓ) : Type ℓ where
  done : A → Outcome A
  failed : String → Outcome A

pub data QueryResult : Type 0 where
  bootstrap : Outcome ℕ → QueryResult
  get_closest_peers get_providers : Outcome (List PeerId) → QueryResult
  start_providing republish_provider put_record republish_record : Outcome Done → QueryResult
  get_record : Outcome (List Record) → QueryResult

-- Only the end of a query is read.
pub data KademliaEvent : Type 0 where
  outbound_query_completed : ℕ → QueryResult → KademliaEvent
  other : KademliaEvent

pub data BitswapEvent : Type 0 where
  progress : ℕ → ℕ → BitswapEvent
  complete : ℕ → Outcome Done → BitswapEvent

abbrev pub insert_query : QueryId → QueryChannel → NetworkBackend → NetworkBackend
insert_query id ch s = record s { queries = insert id ch s.queries }

abbrev pub remove_query : QueryId → NetworkBackend → NetworkBackend
remove_query id s = record s { queries = remove id s.queries }

abbrev pub send_to : Option Channel → Reply → NetworkBackend → NetworkBackend
send_to none r s = s
send_to (some tx) r s = send tx r s

-- The patterns on what was removed from the table.
abbrev pub as_bootstrap : QueryChannel → Option Channel
as_bootstrap (QueryChannel.bootstrap ch) = some ch
as_bootstrap _ = none

abbrev pub as_closest_peers : QueryChannel → Option Channel
as_closest_peers (QueryChannel.get_closest_peers ch) = some ch
as_closest_peers _ = none

abbrev pub as_providers : QueryChannel → Option Channel
as_providers (QueryChannel.get_providers ch) = some ch
as_providers _ = none

abbrev pub as_start_providing : QueryChannel → Option Channel
as_start_providing (QueryChannel.start_providing ch) = some ch
as_start_providing _ = none

abbrev pub as_get_record : QueryChannel → Option Channel
as_get_record (QueryChannel.get_record ch) = some ch
as_get_record _ = none

abbrev pub as_put_record : QueryChannel → Option Channel
as_put_record (QueryChannel.put_record ch) = some ch
as_put_record _ = none

abbrev pub as_sync : QueryChannel → Option Channel
as_sync (QueryChannel.sync ch) = some ch
as_sync _ = none

-- `if let Some(QueryChannel::..(ch)) = queries.remove(&id.into()) { ch.send(..).ok(); }`
unfoldable pub answer :
    (QueryChannel → Option Channel) → ℕ → Reply → NetworkBackend → NetworkBackend
answer pattern id r s =
    send_to (get (QueryId.kad id) s.queries >>= pattern) r (remove_query (QueryId.kad id) s)

abbrev pub as_result : (String → NetworkError) → Outcome Done → Result Done
as_result error (done x) = ok x
as_result error (failed e) = err (error e)

module _ (env : Env) where
  unfoldable pub bootstrapped : ℕ → ℕ → NetworkBackend → NetworkBackend
  unfolding answer
  bootstrapped id num_remaining s =
      if eqb num_remaining 0
      then on_peers (AddressBook.notify env Events.Event.bootstrapped)
          (answer as_bootstrap id (Reply.unit (ok tt)) (record s { bootstrap_complete = true }))
      else s

  unfoldable pub inject_query_result : ℕ → QueryResult → NetworkBackend → NetworkBackend
  unfolding bootstrapped answer
  inject_query_result id (QueryResult.bootstrap (done num_remaining)) s =
      bootstrapped id num_remaining s
  inject_query_result id (QueryResult.bootstrap (failed e)) s =
      answer as_bootstrap id (Reply.unit (err (NetworkError.kad_bootstrap e))) s
  inject_query_result id (QueryResult.get_closest_peers (done ps)) s =
      answer as_closest_peers id (Reply.peers (ok ps)) s
  inject_query_result id (QueryResult.get_closest_peers (failed e)) s =
      answer as_closest_peers id (Reply.peers (err (NetworkError.kad_get_closest_peers e))) s
  inject_query_result id (QueryResult.get_providers (done ps)) s =
      answer as_providers id (Reply.peers (ok ps)) s
  inject_query_result id (QueryResult.get_providers (failed e)) s =
      answer as_providers id (Reply.peers (err (NetworkError.kad_get_providers e))) s
  inject_query_result id (QueryResult.start_providing (done x)) s =
      answer as_start_providing id (Reply.unit (ok x)) s
  inject_query_result id (QueryResult.start_providing (failed e)) s =
      answer as_start_providing id (Reply.unit (err (NetworkError.kad_add_provider e))) s
  inject_query_result id (QueryResult.republish_provider r) s = s
  inject_query_result id (QueryResult.get_record (done rs)) s =
      answer as_get_record id (Reply.records (ok rs)) s
  inject_query_result id (QueryResult.get_record (failed e)) s =
      answer as_get_record id (Reply.records (err (NetworkError.kad_get_record e))) s
  inject_query_result id (QueryResult.put_record (done x)) s =
      answer as_put_record id (Reply.unit (ok x)) s
  inject_query_result id (QueryResult.put_record (failed e)) s =
      answer as_put_record id (Reply.unit (err (NetworkError.kad_put_record e))) s
  inject_query_result id (QueryResult.republish_record r) s = s

  unfoldable pub inject_kad_event : KademliaEvent → NetworkBackend → NetworkBackend
  unfolding inject_query_result
  inject_kad_event (outbound_query_completed id result) s = inject_query_result id result s
  inject_kad_event other s = s

-- The reply to a bitswap query that has come to its end.
abbrev pub completed : Option QueryChannel → Result Done → NetworkBackend → NetworkBackend
completed (some (QueryChannel.get ch)) r s = send ch (Reply.unit r) s
completed (some (QueryChannel.sync ch)) r s = send ch (Reply.complete r) s
completed _ r s = s

unfoldable pub inject_bitswap_event : BitswapEvent → NetworkBackend → NetworkBackend
inject_bitswap_event (progress id missing) s =
    send_to (get (QueryId.bitswap id) s.queries >>= as_sync) (Reply.progress missing) s
inject_bitswap_event (complete id result) s =
    completed (get (QueryId.bitswap id) s.queries) (as_result NetworkError.bitswap_failed result)
      (remove_query (QueryId.bitswap id) s)
