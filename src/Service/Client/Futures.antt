-- ===== src/Service/Client/Futures.antt =====
-- The loop in `poll` of `SyncQuery`, and `forward_listener_events`, of src/net/mod.rs.
use ipfs_embed.Common.{
  ℕ, zero, suc, ◌≡◌, refl, Bool, true, false, Option, none, some, List, [], ◌∷◌, ◌++◌, map, length,
  take, arith, eqb, if◌then◌else◌,
}
use ipfs_embed.Events.{ListenerId, Event}
use ipfs_embed.Behaviour.{QueryId, Result, Done}
use ipfs_embed.Service.Client.{
  ready, pending, SyncEvent, progress, complete, SyncQuery, poll_sync, ListenerEvent, notice,
  forward_listener_events,
}

abbrev pub query : Option QueryId → List SyncEvent → Bool → SyncQuery
query id waiting closed = record { id = id; waiting = waiting; closed = closed }

poll_sync-complete :
    (ms : List ℕ) (id : Option QueryId) (r : Result Done) (rest : List SyncEvent) (closed : Bool)
    → poll_sync (suc (length ms)) (query id (map progress ms ++ complete r ∷ rest) closed)
      ≡ some (ready r, query id rest closed)
unfolding poll_sync
poll_sync-complete [] id r rest closed = refl
poll_sync-complete (m ∷ ms) id r rest closed = poll_sync-complete ms id r rest closed

poll_sync-open :
    (ms : List ℕ) (id : Option QueryId)
    → poll_sync (suc (length ms)) (query id (map progress ms) false)
      ≡ some (pending, query id [] false)
unfolding poll_sync
poll_sync-open [] id = refl
poll_sync-open (m ∷ ms) id = poll_sync-open ms id

poll_sync-closed :
    (fuel : ℕ) (ms : List ℕ) (id : Option QueryId)
    → poll_sync fuel (query id (map progress ms) true) ≡ none
unfolding poll_sync
poll_sync-closed zero ms id = refl
poll_sync-closed (suc n) [] id = poll_sync-closed n [] id
poll_sync-closed (suc n) (m ∷ ms) id = poll_sync-closed n ms id

-- One poll of a sync query skips the progress events that wait. It ends, after one round more than
-- those, with the result of the first completion, or as pending if there is none and the sender
-- lives; but if the sender is gone without a completion, the loop never ends.
pub poll_sync_lem :
    (ms : List ℕ) (id : Option QueryId) (r : Result Done) (rest : List SyncEvent) (closed : Bool)
    → (poll_sync (suc (length ms)) (query id (map progress ms ++ complete r ∷ rest) closed)
        ≡ some (ready r, query id rest closed))
      × ((poll_sync (suc (length ms)) (query id (map progress ms) false)
            ≡ some (pending, query id [] false))
          × ((fuel : ℕ) → poll_sync fuel (query id (map progress ms) true) ≡ none))
poll_sync_lem ms id r rest closed = (
  poll_sync-complete ms id r rest closed,
  (poll_sync-open ms id, λ fuel. poll_sync-closed fuel ms id),
)

-- The listener that an event is about, if any.
abbrev pub listener_of : Event → Option ListenerId
listener_of (Event.new_listener id) = some id
listener_of (Event.new_listen_addr id addr) = some id
listener_of (Event.expired_listen_addr id addr) = some id
listener_of (Event.listener_error id e) = some id
listener_of (Event.listener_closed id) = some id
listener_of _ = none

abbrev is_about : ListenerId → Option ListenerId → Bool
is_about listener none = false
is_about listener (some id) = eqb id listener

-- The events about the listener, whatever they are.
abbrev pub about : ListenerId → List Event → List Event
about listener [] = []
about listener (e ∷ es) =
    if is_about listener (listener_of e) then e ∷ about listener es else about listener es

abbrev pub is_closed : Event → Bool
is_closed (Event.listener_closed id) = true
is_closed _ = false

abbrev pub before_close : List Event → List Event
before_close [] = []
before_close (e ∷ es) = if is_closed e then [] else e ∷ before_close es

-- The new and the expired addresses.
abbrev pub addresses : List Event → List ListenerEvent
addresses [] = []
addresses (Event.new_listen_addr id addr ∷ es) = ListenerEvent.new_listen_addr addr ∷ addresses es
addresses (Event.expired_listen_addr id addr ∷ es) =
    ListenerEvent.expired_listen_addr addr ∷ addresses es
addresses (_ ∷ es) = addresses es

-- The client of a listener gets the new and the expired addresses of that listener, and of no other,
-- which come before it is closed, in order and as many as its receiver takes.
pub forward_listener_events_lem :
    (listener : ListenerId) (room : ℕ) (es : List Event)
    → forward_listener_events listener room es
      ≡ take room (addresses (before_close (about listener es)))
unfolding forward_listener_events notice
forward_listener_events_lem listener zero [] = refl
forward_listener_events_lem listener (suc n) [] = refl
forward_listener_events_lem listener room (Event.new_listener id ∷ es) =
    ground (arith, forward_listener_events_lem listener room es)
forward_listener_events_lem listener room (Event.listener_error id x ∷ es) =
    ground (arith, forward_listener_events_lem listener room es)
forward_listener_events_lem listener zero (Event.listener_closed id ∷ es) =
    ground (arith, forward_listener_events_lem listener zero es)
forward_listener_events_lem listener (suc n) (Event.listener_closed id ∷ es) =
    ground (arith, forward_listener_events_lem listener (suc n) es)
forward_listener_events_lem listener zero (Event.new_listen_addr id addr ∷ es) =
    ground (arith, forward_listener_events_lem listener zero es)
forward_listener_events_lem listener (suc n) (Event.new_listen_addr id addr ∷ es) = ground (
  arith,
  forward_listener_events_lem listener n es,
  forward_listener_events_lem listener (suc n) es,
)
forward_listener_events_lem listener zero (Event.expired_listen_addr id addr ∷ es) =
    ground (arith, forward_listener_events_lem listener zero es)
forward_listener_events_lem listener (suc n) (Event.expired_listen_addr id addr ∷ es) = ground (
  arith,
  forward_listener_events_lem listener n es,
  forward_listener_events_lem listener (suc n) es,
)
forward_listener_events_lem listener room (_ ∷ es) = forward_listener_events_lem listener room es
