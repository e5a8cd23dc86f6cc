-- ===== src/Cli/Program.antt =====
-- cli/src/main.rs: how the events of the node are printed, and how a line of input is carried out.
use ipfs_embed.Common.{String, Option, none, some, List, [], ◌∷◌}
use ipfs_embed.Multiaddr.{PeerId, get_remote_address}
use ipfs_embed.PeerInfo.{PeerInfo, ConnectionFailure}
use ipfs_embed.Events
use ipfs_embed.Behaviour.{Channel, Cid, Done, NetworkError}
use ipfs_embed.Service.Client.{Poll, ready, pending, SyncQuery}
use ipfs_embed.Storage.{BlockStore, Answer, ok, failed, Error, Block}
use ipfs_embed.Network.{Sent, Received}
use ipfs_embed.Ipfs
use ipfs_embed.Ipfs.{Ipfs}
use ipfs_embed.Ipfs.Delegates
use ipfs_embed.Cli.Words.{Text, codes}
use ipfs_embed.Cli.Hex.{as_bytes}
use ipfs_embed.Cli.{Parsed, panicked, Formats, info_io}
use ipfs_embed.Cli.Command
use ipfs_embed.Cli.Command.{Command}
use ipfs_embed.Cli.Event.{Event}

abbrev pub info_event : (ConnectionFailure → String) → PeerId → Option PeerInfo → Event
info_event debug peer none = Event.peer_removed peer
info_event debug peer (some info) = Event.peer_info peer (info_io debug info)

-- The task that prints the events: what becomes of one of the node's.
unfoldable pub cli_event :
    (PeerId → Option PeerInfo) → (ConnectionFailure → String) → Events.Event → Option Event
cli_event peer_info debug (Events.Event.new_listener id) = some Event.new_listener
cli_event peer_info debug (Events.Event.new_listen_addr id addr) = some (Event.new_listen_addr addr)
cli_event peer_info debug (Events.Event.expired_listen_addr id addr) =
    some (Event.expired_listen_addr addr)
cli_event peer_info debug (Events.Event.listener_closed id) = some Event.listener_closed
cli_event peer_info debug (Events.Event.new_external_addr addr) =
    some (Event.new_external_addr addr)
cli_event peer_info debug (Events.Event.expired_external_addr addr) =
    some (Event.expired_external_addr addr)
cli_event peer_info debug (Events.Event.discovered peer) = some (Event.discovered peer)
cli_event peer_info debug (Events.Event.unreachable peer) = some (Event.unreachable peer)
cli_event peer_info debug (Events.Event.connected peer) = some (Event.connected peer)
cli_event peer_info debug (Events.Event.disconnected peer) = some (Event.disconnected peer)
cli_event peer_info debug (Events.Event.subscribed peer topic) =
    some (Event.subscribed peer (codes topic))
cli_event peer_info debug (Events.Event.unsubscribed peer topic) =
    some (Event.unsubscribed peer (codes topic))
cli_event peer_info debug Events.Event.bootstrapped = some Event.bootstrapped
cli_event peer_info debug (Events.Event.new_info peer) =
    some (info_event debug peer (peer_info peer))
cli_event peer_info debug (Events.Event.listener_error id e) = none
cli_event peer_info debug (Events.Event.dial_failure peer addr e) =
    some (Event.dial_failure peer addr (codes e))
cli_event peer_info debug (Events.Event.connection_established peer point) =
    some (Event.connection_established peer (get_remote_address point))
cli_event peer_info debug (Events.Event.connection_closed peer point) =
    some (Event.connection_closed peer (get_remote_address point))
cli_event peer_info debug (Events.Event.address_changed peer old new) = none

-- What one line meets: the answer to the command that it sends, the channel made for it, the known
-- peers, and the query that the loop answers to a sync, at its end.
pub record Turn : Type 0 where
  pub sent : Sent
  pub channel : Channel
  pub peers : List PeerId
  pub query : Received SyncQuery

-- The result of a line, and what it printed.
abbrev pub Carried : BlockStore → Type 0
Carried S = Ipfs S × Answer Done × List Event

module _ (S : BlockStore) (not_found : Cid → NetworkError) (turn : Turn) where
  abbrev pub print_block : Ipfs S × Answer Block → Carried S
  print_block (i, ok b) = (i, ok tt, Event.block b ∷ [])
  print_block (i, failed e) = (i, failed e, [])

  -- `inspect_ok`
  abbrev pub print_done : Event → Ipfs S × Answer Done → Carried S
  print_done e (i, ok done) = (i, ok tt, e ∷ [])
  print_done e (i, failed x) = (i, failed x, [])

  abbrev pub printing_nothing : Ipfs S × Answer Done → Carried S
  printing_nothing (i, r) = (i, r, [])

  -- `none` is a future that never ends, and with it the loop of the program.
  abbrev pub print_synced : Ipfs S × Option (Poll (Answer Done)) → Option (Carried S)
  print_synced (i, some (ready r)) = some (print_done Event.synced (i, r))
  print_synced (i, some pending) = none
  print_synced (i, none) = none

  unfoldable pub execute : Command → Ipfs S → Option (Carried S)
  execute (Command.add_address peer addr) i =
      some (Delegates.add_address S turn.sent peer addr i, ok tt, [])
  execute (Command.dial peer) i = some (Delegates.dial S turn.sent peer i, ok tt, [])
  execute Command.prune_peers i = some (Delegates.prune_peers S turn.sent 0 i, ok tt, [])
  execute (Command.get cid) i = some (print_block (Ipfs.get S cid i))
  execute (Command.insert block) i = some (printing_nothing (Ipfs.insert S block i))
  execute (Command.alias name cid) i =
      some (printing_nothing (Delegates.alias S (as_bytes name) cid i))
  execute Command.flush i = some (print_done Event.flushed (Delegates.flush S i))
  execute (Command.sync cid) i =
      print_synced
        (Delegates.store_sync S turn.peers not_found turn.sent turn.channel turn.query cid i)

  -- One round of the loop over a line of input. An error, of the line or of its command, is only
  -- logged; a line that panics ends the program, as does a future that never ends its loop.
  abbrev pub carry : Parsed Command → Ipfs S → Option (Carried S)
  carry (Parsed.ok c) i = execute c i
  carry Parsed.failed i = some (i, failed Error.invalid_line, [])
  carry panicked i = none

  unfoldable pub handle_line : Formats → Text → Ipfs S → Option (Carried S)
  handle_line f line i = carry (Command.from_str f line) i
