-- ===== src/Network.antt =====
-- `NetworkService` of src/net/mod.rs: what a client's call sends to the loop, and what it gets back.
-- The channel of commands is a library's: its answer to `try_send` is an argument of each call. So
-- is what a oneshot channel later brings. `tx` is the number of the channel that the call makes.
pub mod Sending
pub mod Reading
pub mod Listed
use ipfs_embed.Common.{ℕ, String, Bool, true, false, Option, none, some, List, [], ◌∷◌, ◌++◌, ◌<>◌}
use ipfs_embed.Multiaddr.{PeerId, PeerCodec, Multiaddr, normalize_addr}
use ipfs_embed.PeerInfo.{Time}
use ipfs_embed.Behaviour.{Channel, Key, Cid, Record, QueryId, Result, Done, NetworkError}
use ipfs_embed.Behaviour
use ipfs_embed.Service.{NetworkCommand}
use ipfs_embed.Service.Client.{ListenerEvent, Poll, ready, pending, SyncQuery, sync_early}
use ipfs_embed.Storage.{Answer, ok, failed, Error, not_sent, canceled}

-- What `try_send` answers.
pub data Sent : Type 0 where
  sent full disconnected : Sent

-- The commands that the loop has not taken yet, with those that it has, and the events of listeners
-- that the client sends to itself.
pub record NetworkService : Type 0 where
  pub peer_id : PeerId
  pub node_name : String
  pub commands : List NetworkCommand
  pub events : List (Channel × ListenerEvent)

-- What a oneshot channel brings: a value, or the end of its sender.
pub data Received {ℓ} (A : Type ℓ) : Type ℓ where
  received : A → Received A
  dropped : Received A

-- A call that waits: it is over with a reason, or waits on its channel.
pub data Called : Type 0 where
  refused : String → Called
  waiting : Channel → Called

unfoldable pub handle_send_result : Sent → NetworkCommand → Option (NetworkCommand × String)
handle_send_result sent msg = none
handle_send_result full msg = some (msg, "channel is full")
handle_send_result disconnected msg = some (msg, "receiver went away")

abbrev pub queued : Sent → NetworkCommand → NetworkService → NetworkService
queued sent msg n = record n { commands = n.commands ++ msg ∷ [] }
queued full msg n = n
queued disconnected msg n = n

-- `cmd` and `cmd_shared`
unfoldable pub cmd :
    Sent → NetworkCommand → NetworkService → NetworkService × Option (NetworkCommand × String)
unfolding handle_send_result
cmd r msg n = (queued r msg n, handle_send_result r msg)

-- The methods that send a command and do not wait.
unfoldable pub tell : Sent → NetworkCommand → NetworkService → NetworkService
unfolding cmd
tell r msg n = (cmd r msg n).0

abbrev pub call_of : Channel → Option (NetworkCommand × String) → Called
call_of tx none = waiting tx
call_of tx (some (msg, reason)) = refused reason

-- The methods that send a command with a channel for its answer.
unfoldable pub ask : Sent → Channel → NetworkCommand → NetworkService → NetworkService × Called
unfolding cmd
ask r tx msg n = let c = cmd r msg n in (c.0, call_of tx c.1)

abbrev pub told : Option (NetworkCommand × String) → Answer Done
told none = ok tt
told (some (msg, reason)) = failed (not_sent reason)

-- `unprovide` and `remove_record`, which do not wait for the loop.
unfoldable pub order : Sent → NetworkCommand → NetworkService → NetworkService × Answer Done
unfolding cmd
order r msg n = let c = cmd r msg n in (c.0, told c.1)

-- `rx.await?`
abbrev pub await_value {ℓ} : {A : Type ℓ} → Called → Received A → Answer A
await_value (refused reason) r = failed (not_sent reason)
await_value (waiting tx) (received a) = ok a
await_value (waiting tx) dropped = failed canceled

abbrev pub answer_of {ℓ} : {A : Type ℓ} → Result A → Answer A
answer_of (Result.ok a) = ok a
answer_of (Result.err e) = failed (Error.network e)

-- `rx.await??`
abbrev pub await_result {ℓ} : {A : Type ℓ} → Called → Received (Result A) → Answer A
await_result (refused reason) r = failed (not_sent reason)
await_result (waiting tx) (received r) = answer_of r
await_result (waiting tx) dropped = failed canceled

-- `GetQuery`
pub record GetQuery : Type 0 where
  pub id : QueryId
  pub rx : Channel

-- What a `GetQuery` answers, by what its channel brings.
abbrev pub end_of : Received (Result Done) → Answer Done
end_of (received r) = answer_of r
end_of dropped = failed canceled

-- `poll` of a `GetQuery`.
unfoldable pub poll_get : Poll (Received (Result Done)) → Poll (Answer Done)
poll_get (ready r) = ready (end_of r)
poll_get pending = pending

-- `Drop` of a `GetQuery`, through its own sender.
unfoldable pub drop_get : Sent → GetQuery → NetworkService → NetworkService
drop_get r q n = queued r (NetworkCommand.cancel_query q.id) n
