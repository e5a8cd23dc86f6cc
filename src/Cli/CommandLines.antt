-- ===== src/Cli/CommandLines.antt =====
-- A command printed by `Display` of cli/src/lib.rs is read back by `FromStr`.
use mathlib.Core.List.{append-nil}
use ipfs_embed.Common.{◌≡◌, refl, none, some}
use ipfs_embed.Cli.Words.{codes, split_whitespace-last, is_whitespace}
use ipfs_embed.Cli.Hex.{show_hex, read_hex-show_hex}
use ipfs_embed.Cli.{ok, Formats, IsFormats}
use ipfs_embed.Cli.Command
use ipfs_embed.Cli.Command.{
  Command, add_address, dial, prune_peers, get, insert, alias, flush, sync,
}
use ipfs_embed.Cli.Lines.{show_hex-IsWord_nonempty, keyword_one, keyword_two}

module _ (f : Formats) (l : IsFormats f) where
  -- A command reads back from the line that it prints, if its block has data and fits its hash, its
  -- name is one word, and its address prints one word and reads back; where peer ids and `Cid`s do.
  pub command_roundtrip :
      (c : Command) → Command.IsReadable f c → Command.from_str f (Command.show f c) ≡ ok c
  unfolding Command.from_str Command.show is_whitespace
  command_roundtrip (add_address peer addr) h =
      rw
        (
          keyword_two (codes ">add-address") (f.show_peer peer) (f.show_addr addr) (refl, refl)
              (l.peer_word peer) h.0,
          l.peer_back peer,
          h.1,
        )
        refl
  command_roundtrip (dial peer) h =
      rw
        (
          keyword_one (codes ">dial") (f.show_peer peer) (refl, refl) (l.peer_word peer),
          l.peer_back peer,
        )
        refl
  command_roundtrip prune_peers h =
      rw (split_whitespace-last (codes ">prune-peers") (refl, refl)) refl
  command_roundtrip (get cid) h =
      rw (keyword_one (codes ">get") (f.show_cid cid) (refl, refl) (l.cid_word cid), l.cid_back cid)
        refl
  command_roundtrip (insert block) h =
      rw
        (
          keyword_two (codes ">insert") (f.show_cid block.cid) (show_hex block.bytes) (refl, refl)
              (l.cid_word block.cid) (show_hex-IsWord_nonempty block.bytes h.0 h.1),
          l.cid_back block.cid,
          read_hex-show_hex block.bytes h.0,
          h.2,
        )
        refl
  command_roundtrip (alias name none) h =
      rw (append-nil name, keyword_one (codes ">alias") name (refl, refl) h) refl
  command_roundtrip (alias name (some cid)) h =
      rw
        (
          keyword_two (codes ">alias") name (f.show_cid cid) (refl, refl) h (l.cid_word cid),
          l.cid_back cid,
        )
        refl
  command_roundtrip flush h = rw (split_whitespace-last (codes ">flush") (refl, refl)) refl
  command_roundtrip (sync cid) h =
      rw
        (keyword_one (codes ">sync") (f.show_cid cid) (refl, refl) (l.cid_word cid), l.cid_back cid)
        refl
