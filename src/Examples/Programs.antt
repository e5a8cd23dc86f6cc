-- ===== src/Examples/Programs.antt =====
-- Lines and runs of the programs in cli/src and of the trees in harness/src.
use ipfs_embed.Common.{◌≤◌, ◌≡◌, ◌≢◌, refl, none, some, List, [], ◌∷◌, arith, nat_eq}
use ipfs_embed.Common.{length, string_eq}
use ipfs_embed.Common.Assoc
use ipfs_embed.Behaviour.{Cid}
use ipfs_embed.Storage.{ok, Block}
use ipfs_embed.Storage.Batch
use ipfs_embed.Storage.Calls
use ipfs_embed.Network.{sent, dropped}
use ipfs_embed.Ipfs
use ipfs_embed.Ipfs.{Ipfs, Fetching}
use ipfs_embed.Cli.Words.{Text, codes, split_whitespace, split, join, is_whitespace}
use ipfs_embed.Cli.{Parsed}
use ipfs_embed.Cli.Command
use ipfs_embed.Cli.Command.{Command}
use ipfs_embed.Multiaddr.{ip4, tcp}
use ipfs_embed.Cli.Event
use ipfs_embed.Cli.Event.{Event}
use ipfs_embed.Cli.CommandLines.{command_roundtrip}
use ipfs_embed.Cli.EventLines.{event_roundtrip}
use ipfs_embed.Cli.Panics.{from_str-safe, from_str-empty_block, needed}
use ipfs_embed.Cli.Arguments.{secret, secret_injective}
use ipfs_embed.Cli.Program.{Turn, handle_line}
use ipfs_embed.Cli.Arguments
use ipfs_embed.Cli.Arguments.{Config}
use ipfs_embed.Cli.Setup.{started, started_lem, listens, externals, with_commands}
use ipfs_embed.Harness.{Node, build_tree}
use ipfs_embed.Harness.Tree.{build_tree_lem, tree_size, Holds, InOrder}
use ipfs_embed.Cli.Session.{insert-get-printed}
use ipfs_embed.Common.{◌++◌, Option}
use ipfs_embed.Examples.{addr, codec}
use ipfs_embed.Examples.Store.{memory_store, memory_store-IsBlockStore}
use ipfs_embed.Examples.Formats.{formats, formats-IsFormats}
use ipfs_embed.Examples.Store.{block, node, not_found}

abbrev turn : Turn
turn = record { sent = sent; channel = 9; peers = []; query = dropped }

command_roundtrip_example :
    Command.from_str formats (Command.show formats (Command.insert block))
    ≡ Parsed.ok (Command.insert block)
command_roundtrip_example =
    command_roundtrip formats formats-IsFormats (Command.insert block)
      ((omega arith, (omega arith, tt)), (ground arith), refl)

abbrev dialled : Event.Event
dialled = Event.dial_failure 2 (ip4 1 ∷ tcp 2 ∷ []) (codes "timed out")

event_roundtrip_example : Event.from_str formats (Event.show formats dialled) ≡ Parsed.ok dialled
unfolding join split_whitespace split is_whitespace
event_roundtrip_example =
    event_roundtrip formats formats-IsFormats dialled (((refl, refl), refl), refl)

one_word :
    (k : Text) (parts : List Text)
    → split_whitespace (codes ">get 11") ≡ k ∷ parts
    → needed k ≤ length parts
unfolding split_whitespace split is_whitespace
one_word k parts h =
    let ek : k ≡ codes ">get" = cc in
    let ep : parts ≡ codes "11" ∷ [] = cc in rw (ek, ep) (omega arith)

from_str-safe_example : Command.from_str formats (codes ">get 11") ≢ Parsed.panicked
from_str-safe_example = from_str-safe formats (codes ">get 11") one_word

from_str-empty_block_example :
    (Command.from_str formats
        (Command.show formats (Command.insert (record { cid = 0; bytes = [] })))
      ≡ Parsed.panicked)
    × (Event.from_str formats (Event.show formats (Event.block (record { cid = 0; bytes = [] })))
        ≡ Parsed.panicked)
from_str-empty_block_example = from_str-empty_block formats formats-IsFormats 0

insert-get-printed_example :
    (j k : Ipfs memory_store) × (handle_line memory_store not_found turn formats
        (Command.show formats (Command.insert block))
        node
      ≡ some (j, ok tt, []))
    × (handle_line memory_store not_found turn formats (Command.show formats (Command.get 7)) j
        ≡ some (k, ok tt, Event.block block ∷ []))
    × (Event.from_str formats (Event.show formats (Event.block block))
        ≡ Parsed.ok (Event.block block))
unfolding Ipfs.insert Calls.insert Calls.get Calls.run_rw Batch.insert Batch.get Assoc.insert
    Assoc.get
insert-get-printed_example =
    insert-get-printed memory_store memory_store-IsBlockStore formats formats-IsFormats not_found
      turn turn block node (some (3 ∷ 4 ∷ []))
      ((omega arith, (omega arith, tt)), (ground arith), refl) refl refl

-- A node that listens on one address, and has another as its external one.
abbrev config : Config
config = record (Arguments.new 3) { external = addr ∷ [] }

started_example :
    (config.bootstrap ≡ []
      → started memory_store codec (λ n. sent) (λ n. n) config node
        ≡ some (
            with_commands memory_store codec
              (λ n. sent)
              (λ n. n)
              node
              (listens memory_store codec (λ n. sent) (λ n. n) 0 config.listen_on
                ++ externals memory_store codec (λ n. sent) (λ n. n) node config.external)))
    × (config.bootstrap ≢ [] → started memory_store codec (λ n. sent) (λ n. n) config node ≡ none)
started_example = started_lem memory_store codec (λ n. sent) (λ n. n) (λ n. refl) config node

-- A block of its depth, for the encoding of a node.
abbrev encoded : Node → Option Block
encoded n = some (record { cid = n.depth; bytes = n.links })

build_tree_example :
    (root : Cid) × (blocks : List Block) × (build_tree (λ draw n. []) encoded 2 3
      ≡ some (root, blocks))
    × (length blocks ≡ tree_size 2 3)
    × Holds blocks root
    × InOrder (λ b. b.bytes) blocks
build_tree_example =
    build_tree_lem (λ draw n. []) encoded (λ b. b.bytes)
      (λ n. (record { cid = n.depth; bytes = n.links }, refl, refl)) 2 3
