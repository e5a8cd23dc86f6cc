-- ===== src/Cli/EventLines.antt =====
-- An event printed by `Display` of cli/src/lib.rs is read back by `FromStr`.
use ipfs_embed.Common.{◌≡◌, refl, ◌∷◌, ◌++◌}
use ipfs_embed.Cli.Words.{codes, split_whitespace-word, split_whitespace-last, is_whitespace}
use ipfs_embed.Cli.Hex.{show_hex, read_hex-show_hex}
use ipfs_embed.Cli.{ok, Formats, IsFormats}
use ipfs_embed.Cli.Event
use ipfs_embed.Cli.Event.{
  Event, new_listener, new_listen_addr, expired_listen_addr, listener_closed, new_external_addr,
  expired_external_addr, discovered, unreachable, connected, disconnected, subscribed, unsubscribed,
  block, flushed, synced, bootstrapped, peer_info, peer_removed, dial_failure,
  connection_established, connection_closed,
}
use ipfs_embed.Cli.Lines.{show_hex-IsWord_nonempty, keyword_one, keyword_two, keyword_rest}

module _ (f : Formats) (l : IsFormats f) where
  -- An event reads back from the line that it prints, if its block has data and fits its hash, its
  -- topic is one word, its address prints one word and reads back, its record reads back, and spaces
  -- stand single in its record and its error; where peer ids and `Cid`s read back.
  pub event_roundtrip :
      (e : Event) → Event.IsReadable f e → Event.from_str f (Event.show f e) ≡ ok e
  unfolding Event.from_str Event.show is_whitespace
  event_roundtrip new_listener h =
      rw (split_whitespace-last (codes "<new-listener") (refl, refl)) refl
  event_roundtrip (new_listen_addr addr) h =
      rw (keyword_one (codes "<new-listen-addr") (f.show_addr addr) (refl, refl) h.0, h.1) refl
  event_roundtrip (expired_listen_addr addr) h =
      rw (keyword_one (codes "<expired-listen-addr") (f.show_addr addr) (refl, refl) h.0, h.1) refl
  event_roundtrip listener_closed h =
      rw (split_whitespace-last (codes "<listener-closed") (refl, refl)) refl
  event_roundtrip (new_external_addr addr) h =
      rw (keyword_one (codes "<new-external-addr") (f.show_addr addr) (refl, refl) h.0, h.1) refl
  event_roundtrip (expired_external_addr addr) h =
      rw (keyword_one (codes "<expired-external-addr") (f.show_addr addr) (refl, refl) h.0, h.1)
        refl
  event_roundtrip (discovered peer) h =
      rw
        (
          keyword_one (codes "<discovered") (f.show_peer peer) (refl, refl) (l.peer_word peer),
          l.peer_back peer,
        )
        refl
  event_roundtrip (unreachable peer) h =
      rw
        (
          keyword_one (codes "<unreachable") (f.show_peer peer) (refl, refl) (l.peer_word peer),
          l.peer_back peer,
        )
        refl
  event_roundtrip (connected peer) h =
      rw
        (
          keyword_one (codes "<connected") (f.show_peer peer) (refl, refl) (l.peer_word peer),
          l.peer_back peer,
        )
        refl
  event_roundtrip (disconnected peer) h =
      rw
        (
          keyword_one (codes "<disconnected") (f.show_peer peer) (refl, refl) (l.peer_word peer),
          l.peer_back peer,
        )
        refl
  event_roundtrip (subscribed peer topic) h =
      rw
        (
          keyword_two (codes "<subscribed") (f.show_peer peer) topic (refl, refl) (l.peer_word peer)
              h,
          l.peer_back peer,
        )
        refl
  event_roundtrip (unsubscribed peer topic) h =
      rw
        (
          keyword_two (codes "<unsubscribed") (f.show_peer peer) topic (refl, refl)
              (l.peer_word peer) h,
          l.peer_back peer,
        )
        refl
  event_roundtrip (Event.block b) h =
      rw
        (
          keyword_two (codes "<block") (f.show_cid b.cid) (show_hex b.bytes) (refl, refl)
              (l.cid_word b.cid) (show_hex-IsWord_nonempty b.bytes h.0 h.1),
          l.cid_back b.cid,
          read_hex-show_hex b.bytes h.0,
          h.2,
        )
        refl
  event_roundtrip flushed h = rw (split_whitespace-last (codes "<flushed") (refl, refl)) refl
  event_roundtrip synced h = rw (split_whitespace-last (codes "<synced") (refl, refl)) refl
  event_roundtrip bootstrapped h =
      rw (split_whitespace-last (codes "<bootstrapped") (refl, refl)) refl
  event_roundtrip (peer_info peer info) h =
      rw
        (
          keyword_rest (codes "<peer-info") (f.show_peer peer) (f.show_info info) (refl, refl)
              (l.peer_word peer),
          l.peer_back peer,
          h.0,
          h.1,
        )
        refl
  event_roundtrip (peer_removed peer) h =
      rw
        (
          keyword_one (codes "<peer-removed") (f.show_peer peer) (refl, refl) (l.peer_word peer),
          l.peer_back peer,
        )
        refl
  event_roundtrip (dial_failure peer addr e) h =
      rw
        (
          keyword_rest (codes "<dial-failure") (f.show_peer peer) (f.show_addr addr ++ (b' ' ∷ e))
              (refl, refl) (l.peer_word peer),
          split_whitespace-word (f.show_addr addr) e h.0.0,
          l.peer_back peer,
          h.0.1,
          h.1,
        )
        refl
  event_roundtrip (connection_established peer addr) h =
      rw
        (
          keyword_two (codes "<connection-established") (f.show_peer peer) (f.show_addr addr)
              (refl, refl) (l.peer_word peer) h.0,
          l.peer_back peer,
          h.1,
        )
        refl
  event_roundtrip (connection_closed peer addr) h =
      rw
        (
          keyword_two (codes "<connection-closed") (f.show_peer peer) (f.show_addr addr)
              (refl, refl) (l.peer_word peer) h.0,
          l.peer_back peer,
          h.1,
        )
        refl
