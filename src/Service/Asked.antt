-- ===== src/Service/Asked.antt =====
-- The queries of src/net/mod.rs and src/net/behaviour.rs, described: what each asks, and what its
-- channel is to get.
use ipfs_embed.Common.{ℕ, String, ◌≡◌, true, List}
use ipfs_embed.Multiaddr.{PeerId}
use ipfs_embed.Behaviour.{
  QueryId, QueryChannel, query_id_eq, Channel, Key, Cid, Record, Result, ok, err, Done, Reply,
  NetworkError, NetworkBackend,
}
use ipfs_embed.Behaviour.Queries.{Outcome, done, failed, QueryResult, KademliaEvent, BitswapEvent}
use ipfs_embed.Service.{NetworkCommand, SwarmEvent}

-- A query with the outcome that its protocol comes to.
pub data Query : Type 0 where
  providers : Key → Outcome (List PeerId) → Query
  get_record : Key → Outcome (List Record) → Query
  provide : Key → Outcome Done → Query
  put_record : Record → Outcome Done → Query
  get : Cid → List PeerId → Outcome Done → Query
  sync : Cid → List PeerId → List Cid → Outcome Done → Query

abbrev pub command_of : Query → Channel → NetworkCommand
command_of (providers key o) tx = NetworkCommand.providers key tx
command_of (get_record key o) tx = NetworkCommand.get_record key tx
command_of (provide key o) tx = NetworkCommand.provide key tx
command_of (put_record item o) tx = NetworkCommand.put_record item tx
command_of (get cid from o) tx = NetworkCommand.get cid from tx
command_of (sync cid from missing o) tx = NetworkCommand.sync cid from missing tx

-- Its id, where the protocol gave the number `id`.
abbrev pub id_of : Query → ℕ → QueryId
id_of (get cid from o) id = QueryId.bitswap id
id_of (sync cid from missing o) id = QueryId.bitswap id
id_of _ id = QueryId.kad id

-- The channel that waits for the end: the loop makes one for a bitswap query.
abbrev pub channel_of : Query → Channel → Channel → Channel
channel_of (get cid from o) tx made = made
channel_of (sync cid from missing o) tx made = made
channel_of _ tx made = tx

abbrev pub kad_event : ℕ → QueryResult → SwarmEvent
kad_event id r = SwarmEvent.kad (KademliaEvent.outbound_query_completed id r)

abbrev pub event_of : Query → ℕ → SwarmEvent
event_of (providers key o) id = kad_event id (QueryResult.get_providers o)
event_of (get_record key o) id = kad_event id (QueryResult.get_record o)
event_of (provide key o) id = kad_event id (QueryResult.start_providing o)
event_of (put_record item o) id = kad_event id (QueryResult.put_record o)
event_of (get cid from o) id = SwarmEvent.bitswap (BitswapEvent.complete id o)
event_of (sync cid from missing o) id = SwarmEvent.bitswap (BitswapEvent.complete id o)

abbrev pub result_of {ℓ} : {A : Type ℓ} → (String → NetworkError) → Outcome A → Result A
result_of error (done a) = ok a
result_of error (failed e) = err (error e)

-- What the channel is to get.
abbrev pub reply_of : Query → Reply
reply_of (providers key o) = Reply.peers (result_of NetworkError.kad_get_providers o)
reply_of (get_record key o) = Reply.records (result_of NetworkError.kad_get_record o)
reply_of (provide key o) = Reply.unit (result_of NetworkError.kad_add_provider o)
reply_of (put_record item o) = Reply.unit (result_of NetworkError.kad_put_record o)
reply_of (get cid from o) = Reply.unit (result_of NetworkError.bitswap_failed o)
reply_of (sync cid from missing o) = Reply.complete (result_of NetworkError.bitswap_failed o)

-- The protocol of the query is on, and for Kademlia the node is bootstrapped.
abbrev pub IsServed : Query → NetworkBackend → Type 0
IsServed (get cid from o) s = s.protocols.bitswap ≡ true
IsServed (sync cid from missing o) s = s.protocols.bitswap ≡ true
IsServed _ s = (s.bootstrap_complete ≡ true) × (s.protocols.kad ≡ true)

-- Its entry in the table.
abbrev pub entry_of : Query → Channel → Channel → QueryChannel
entry_of (providers key o) tx made = QueryChannel.get_providers tx
entry_of (get_record key o) tx made = QueryChannel.get_record tx
entry_of (provide key o) tx made = QueryChannel.start_providing tx
entry_of (put_record item o) tx made = QueryChannel.put_record tx
entry_of (get cid from o) tx made = QueryChannel.get made
entry_of (sync cid from missing o) tx made = QueryChannel.sync made
