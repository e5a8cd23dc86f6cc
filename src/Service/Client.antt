-- ===== src/Service/Client.antt =====
-- The client's side of src/net/mod.rs: the futures of queries, and the events of one listener.
pub mod Futures
use ipfs_embed.Common.{
  ℕ, zero, suc, String, Bool, true, false, Option, none, some, List, [], ◌∷◌, if◌then◌else◌, eqb,
}
use ipfs_embed.Multiaddr.{PeerId, Multiaddr}
use ipfs_embed.Events.{ListenerId, Event}
use ipfs_embed.Behaviour.{QueryId, Cid, Result, Done, ok, err, NetworkError}
use ipfs_embed.Service.{NetworkCommand, cancel_query}

pub data Poll {ℓ} (A : Type ℓ) : Type ℓ where
  ready : A → Poll A
  pending : Poll A

pub data SyncEvent : Type 0 where
  progress : ℕ → SyncEvent
  complete : Result Done → SyncEvent

-- `SyncQuery`: the id while a query runs, and the receiver: the messages that wait in the channel,
-- and whether its sender is gone.
pub record SyncQuery : Type 0 where
  pub id : Option QueryId
  pub waiting : List SyncEvent
  pub closed : Bool

-- `SyncQuery::ready`: the sender is dropped at the end of the function.
unfoldable pub ready_query : Result Done → SyncQuery
ready_query res = record { id = none; waiting = complete res ∷ []; closed = true }

-- `poll` of the future, with fuel for its loop: `none` is a loop that has not ended. A closed and
-- empty channel is read again.
unfoldable pub poll_sync : ℕ → SyncQuery → Option (Poll (Result Done) × SyncQuery)
poll_sync zero q = none
poll_sync (suc n) q = elim q.waiting [
  | [] ↦ elim q.closed [ true ↦ poll_sync n q | false ↦ some (pending, q) ]
  | e ∷ rest ↦ elim e [
    | complete r ↦ some (ready r, record q { waiting = rest })
    | progress m ↦ poll_sync n (record q { waiting = rest })
  ]
]

-- `poll_next` of the stream.
unfoldable pub next_event : SyncQuery → Poll (Option SyncEvent) × SyncQuery
next_event q = elim q.waiting [
  | [] ↦ (if q.closed then ready none else pending, q)
  | e ∷ rest ↦ (ready (some e), record q { waiting = rest })
]

-- `Drop`: the command that is sent.
unfoldable pub drop_sync : SyncQuery → Option NetworkCommand
drop_sync q = elim q.id [ none ↦ none | some id ↦ some (cancel_query id) ]

-- What `NetworkService::sync` answers without asking the loop, where it does not ask. `not_found` is
-- the error `BlockNotFound`.
unfoldable pub sync_early :
    (not_found : Cid → NetworkError) → List PeerId → List Cid → Option SyncQuery
sync_early not_found providers [] = some (ready_query (ok tt))
sync_early not_found [] (cid ∷ missing) = some (ready_query (err (not_found cid)))
sync_early not_found (p ∷ providers) (cid ∷ missing) = none

pub data ListenerEvent : Type 0 where
  new_listen_addr expired_listen_addr : Multiaddr → ListenerEvent
  listen_failed : Multiaddr → String → ListenerEvent

-- What an event of the node says of one listener: the end, something to forward, or nothing.
pub data Notice : Type 0 where
  over nothing : Notice
  forward : ListenerEvent → Notice

unfoldable pub notice : ListenerId → Event → Notice
notice listener (Event.listener_closed id) = if eqb id listener then over else nothing
notice listener (Event.new_listen_addr id addr) =
    if eqb id listener then forward (ListenerEvent.new_listen_addr addr) else nothing
notice listener (Event.expired_listen_addr id addr) =
    if eqb id listener then forward (ListenerEvent.expired_listen_addr addr) else nothing
notice listener _ = nothing

-- `forward_listener_events`: what reaches the client, where its receiver takes `room` more events.
unfoldable pub forward_listener_events : ListenerId → ℕ → List Event → List ListenerEvent
unfolding notice
forward_listener_events listener room [] = []
forward_listener_events listener room (e ∷ es) = elim (notice listener e) [
  | over ↦ []
  | nothing ↦ forward_listener_events listener room es
  | forward f ↦ elim room [ zero ↦ [] | suc n ↦ f ∷ forward_listener_events listener n es ]
]
