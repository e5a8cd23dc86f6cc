-- ===== src/Cli/Event.antt =====
-- `Event` of cli/src/lib.rs, a line of the program's output.
use ipfs_embed.Common.{◌≡◌, some, List, [], ◌∷◌, ◌++◌, if◌then◌else◌, ◌==◌}
use ipfs_embed.Multiaddr.{PeerId, Multiaddr}
use ipfs_embed.Cli.Words.{Text, codes, IsWord, text_eq, split_whitespace, join}
use ipfs_embed.Cli.Hex.{show_hex}
use ipfs_embed.Cli.{
  Parsed, ok, failed, ◌>>=◌, try, part, parse_part, parse_one, parse_two, parse_block, IsPrinted,
  IsAddress, PeerInfoIo, Formats,
}
use ipfs_embed.Storage.{Block}

pub data Event : Type 0 where
  new_listener listener_closed flushed synced bootstrapped : Event
  new_listen_addr expired_listen_addr new_external_addr expired_external_addr : Multiaddr → Event
  discovered unreachable connected disconnected peer_removed : PeerId → Event
  subscribed unsubscribed : PeerId → Text → Event
  block : Block → Event
  peer_info : PeerId → PeerInfoIo → Event
  dial_failure : PeerId → Multiaddr → Text → Event
  connection_established connection_closed : PeerId → Multiaddr → Event

-- A text whose words are joined by single spaces: it comes back from `split_whitespace` and `join`.
abbrev pub IsJoined : Text → Type 0
IsJoined s = join (split_whitespace s) ≡ s

module _ (f : Formats) where
  -- `Display`
  unfoldable pub show : Event → Text
  show new_listener = codes "<new-listener"
  show (new_listen_addr addr) = codes "<new-listen-addr " ++ f.show_addr addr
  show (expired_listen_addr addr) = codes "<expired-listen-addr " ++ f.show_addr addr
  show listener_closed = codes "<listener-closed"
  show (new_external_addr addr) = codes "<new-external-addr " ++ f.show_addr addr
  show (expired_external_addr addr) = codes "<expired-external-addr " ++ f.show_addr addr
  show (discovered peer) = codes "<discovered " ++ f.show_peer peer
  show (unreachable peer) = codes "<unreachable " ++ f.show_peer peer
  show (connected peer) = codes "<connected " ++ f.show_peer peer
  show (disconnected peer) = codes "<disconnected " ++ f.show_peer peer
  show (subscribed peer topic) = codes "<subscribed " ++ (f.show_peer peer ++ (b' ' ∷ topic))
  show (unsubscribed peer topic) = codes "<unsubscribed " ++ (f.show_peer peer ++ (b' ' ∷ topic))
  show (block b) = codes "<block " ++ (f.show_cid b.cid ++ (b' ' ∷ show_hex b.bytes))
  show flushed = codes "<flushed"
  show synced = codes "<synced"
  show bootstrapped = codes "<bootstrapped"
  show (peer_info peer info) =
      codes "<peer-info " ++ (f.show_peer peer ++ (b' ' ∷ f.show_info info))
  show (peer_removed peer) = codes "<peer-removed " ++ f.show_peer peer
  show (dial_failure peer addr e) =
      codes "<dial-failure " ++ (f.show_peer peer ++ (b' ' ∷ (f.show_addr addr ++ (b' ' ∷ e))))
  show (connection_established peer addr) =
      codes "<connection-established " ++ (f.show_peer peer ++ (b' ' ∷ f.show_addr addr))
  show (connection_closed peer addr) =
      codes "<connection-closed " ++ (f.show_peer peer ++ (b' ' ∷ f.show_addr addr))

  abbrev pub parse_topic : (PeerId → Text → Event) → List Text → Parsed Event
  parse_topic make parts = do
    peer ← parse_part f.read_peer parts
    topic ← part peer.1
    ok (make peer.0 topic.0)

  abbrev pub parse_peer_info : List Text → Parsed Event
  parse_peer_info parts = do
    id ← parse_part f.read_peer parts
    info ← try (f.read_info (join id.1))
    ok (peer_info id.0 info)

  abbrev pub parse_dial_failure : List Text → Parsed Event
  parse_dial_failure parts = do
    id ← parse_part f.read_peer parts
    addr ← parse_part f.read_addr id.1
    ok (dial_failure id.0 addr.0 (join addr.1))

  abbrev pub parse_event : List Text → Parsed Event
  parse_event [] = failed
  parse_event (k ∷ parts) =
      if k == codes "<new-listener"
      then ok new_listener
      else if k == codes "<new-listen-addr"
      then parse_one f.read_addr new_listen_addr parts
      else if k == codes "<expired-listen-addr"
      then parse_one f.read_addr expired_listen_addr parts
      else if k == codes "<listener-closed"
      then ok listener_closed
      else if k == codes "<new-external-addr"
      then parse_one f.read_addr new_external_addr parts
      else if k == codes "<expired-external-addr"
      then parse_one f.read_addr expired_external_addr parts
      else if k == codes "<discovered"
      then parse_one f.read_peer discovered parts
      else if k == codes "<unreachable"
      then parse_one f.read_peer unreachable parts
      else if k == codes "<connected"
      then parse_one f.read_peer connected parts
      else if k == codes "<disconnected"
      then parse_one f.read_peer disconnected parts
      else if k == codes "<subscribed"
      then parse_topic subscribed parts
      else if k == codes "<unsubscribed"
      then parse_topic unsubscribed parts
      else if k == codes "<block"
      then (parse_block f parts >>= λ b. ok (block b))
      else if k == codes "<flushed"
      then ok flushed
      else if k == codes "<synced"
      then ok synced
      else if k == codes "<bootstrapped"
      then ok bootstrapped
      else if k == codes "<peer-info"
      then parse_peer_info parts
      else if k == codes "<peer-removed"
      then parse_one f.read_peer peer_removed parts
      else if k == codes "<dial-failure"
      then parse_dial_failure parts
      else if k == codes "<connection-established"
      then parse_two f.read_peer f.read_addr connection_established parts
      else if k == codes "<connection-closed"
      then parse_two f.read_peer f.read_addr connection_closed parts
      else failed

  -- `FromStr`
  unfoldable pub from_str : Text → Parsed Event
  from_str s = parse_event (split_whitespace s)

  -- What an event must be to read back as itself: its topic is one word, its address is one word
  -- that reads back, its block has data that its hash fits, and spaces stand single in its JSON or
  -- its error.
  abbrev pub IsReadable : Event → Type 0
  IsReadable (new_listen_addr addr) = IsAddress f addr
  IsReadable (expired_listen_addr addr) = IsAddress f addr
  IsReadable (new_external_addr addr) = IsAddress f addr
  IsReadable (expired_external_addr addr) = IsAddress f addr
  IsReadable (connection_established peer addr) = IsAddress f addr
  IsReadable (connection_closed peer addr) = IsAddress f addr
  IsReadable (subscribed peer topic) = IsWord topic
  IsReadable (unsubscribed peer topic) = IsWord topic
  IsReadable (block b) = IsPrinted f b
  IsReadable (peer_info peer info) =
      IsJoined (f.show_info info) × (f.read_info (f.show_info info) ≡ some info)
  IsReadable (dial_failure peer addr e) = IsAddress f addr × IsJoined e
  IsReadable _ = Unit
