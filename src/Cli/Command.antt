-- ===== src/Cli/Command.antt =====
-- `Command` of cli/src/lib.rs, a line of the program's input.
use ipfs_embed.Common.{Option, none, some, List, [], ◌∷◌, ◌++◌, if◌then◌else◌, ◌==◌}
use ipfs_embed.Multiaddr.{PeerId, Multiaddr}
use ipfs_embed.Behaviour.{Cid}
use ipfs_embed.Cli.Words.{Text, codes, IsWord, text_eq, split_whitespace}
use ipfs_embed.Cli.Hex.{show_hex}
use ipfs_embed.Cli.{
  Parsed, ok, failed, ◌>>=◌, try, part, parse_one, parse_two, parse_block, IsPrinted, IsAddress,
  Formats,
}
use ipfs_embed.Storage.{Block}

pub data Command : Type 0 where
  add_address : PeerId → Multiaddr → Command
  dial : PeerId → Command
  prune_peers flush : Command
  get sync : Cid → Command
  insert : Block → Command
  alias : Text → Option Cid → Command

-- `parts.next().map(|s| s.parse()).transpose()?`
abbrev pub parse_optional {ℓ} : {A : Type ℓ} → (Text → Option A) → List Text → Parsed (Option A)
parse_optional read [] = ok none
parse_optional read (w ∷ parts) = try (read w) >>= λ a. ok (some a)

module _ (f : Formats) where
  abbrev pub show_cid_after : Option Cid → Text
  show_cid_after none = []
  show_cid_after (some cid) = b' ' ∷ f.show_cid cid

  -- `Display`
  unfoldable pub show : Command → Text
  show (add_address peer addr) =
      codes ">add-address " ++ (f.show_peer peer ++ (b' ' ∷ f.show_addr addr))
  show (dial peer) = codes ">dial " ++ f.show_peer peer
  show prune_peers = codes ">prune-peers"
  show (get cid) = codes ">get " ++ f.show_cid cid
  show (insert block) = codes ">insert " ++ (f.show_cid block.cid ++ (b' ' ∷ show_hex block.bytes))
  show (alias name cid) = codes ">alias " ++ (name ++ show_cid_after cid)
  show flush = codes ">flush"
  show (sync cid) = codes ">sync " ++ f.show_cid cid

  abbrev pub parse_alias : List Text → Parsed Command
  parse_alias parts = do
    name ← part parts
    cid ← parse_optional f.read_cid name.1
    ok (alias name.0 cid)

  abbrev pub parse_command : List Text → Parsed Command
  parse_command [] = failed
  parse_command (k ∷ parts) =
      if k == codes ">add-address"
      then parse_two f.read_peer f.read_addr add_address parts
      else if k == codes ">dial"
      then parse_one f.read_peer dial parts
      else if k == codes ">prune-peers"
      then ok prune_peers
      else if k == codes ">get"
      then parse_one f.read_cid get parts
      else if k == codes ">insert"
      then (parse_block f parts >>= λ block. ok (insert block))
      else if k == codes ">alias"
      then parse_alias parts
      else if k == codes ">flush"
      then ok flush
      else if k == codes ">sync"
      then parse_one f.read_cid sync parts
      else failed

  -- `FromStr`
  unfoldable pub from_str : Text → Parsed Command
  from_str s = parse_command (split_whitespace s)

  -- What a command must be to read back as itself: a block that its hash fits, with data, a name
  -- that is one word, and an address that is one word and reads back.
  abbrev pub IsReadable : Command → Type 0
  IsReadable (add_address peer addr) = IsAddress f addr
  IsReadable (insert block) = IsPrinted f block
  IsReadable (alias name cid) = IsWord name
  IsReadable _ = Unit
