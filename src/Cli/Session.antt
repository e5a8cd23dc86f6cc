-- ===== src/Cli/Session.antt =====
-- A block through the lines of the program: inserted by one, got by the next, and printed.
use ipfs_embed.Common.{ℕ, ◌≡◌, refl, ap, ◌∙◌, Option, some, List, [], ◌∷◌}
use ipfs_embed.Behaviour.{Cid, NetworkError}
use ipfs_embed.Storage.{BlockStore, ok, Block}
use ipfs_embed.Storage.Calls
use ipfs_embed.Storage.Contents.{IsBlockStore}
use ipfs_embed.Ipfs
use ipfs_embed.Ipfs.{Ipfs}
use ipfs_embed.Ipfs.Fetched.{get-insert}
use ipfs_embed.Cli.{Parsed, Formats, IsFormats, IsPrinted}
use ipfs_embed.Cli.Command
use ipfs_embed.Cli.Command.{Command}
use ipfs_embed.Cli.Event
use ipfs_embed.Cli.Event.{Event}
use ipfs_embed.Cli.CommandLines.{command_roundtrip}
use ipfs_embed.Cli.EventLines.{event_roundtrip}
use ipfs_embed.Cli.Program.{Turn, handle_line, carry, execute}

module _ (S : BlockStore) (l : IsBlockStore S) (f : Formats) (fl : IsFormats f)
    (not_found : Cid → NetworkError) (turn turn₂ : Turn) where
  line-executes :
      (t : Turn) (c : Command) (i : Ipfs S)
      → Command.IsReadable f c
      → handle_line S not_found t f (Command.show f c) i ≡ execute S not_found t c i
  unfolding handle_line
  line-executes t c i h = ap (λ p. carry S not_found t p i) (command_roundtrip f fl c h)

  -- A printable block that one line inserts is printed by the line that gets it, where the store fails
  -- neither the insert nor the read, and what is printed reads back as that block.
  pub insert-get-printed :
      (b : Block) (i : Ipfs S) (r : Option (List ℕ))
      → IsPrinted f b
      → (Ipfs.insert S b i).1 ≡ ok tt
      → (Calls.get S b.cid (Ipfs.insert S b i).0.storage).1 ≡ ok r
      → (j k : Ipfs S) × (handle_line S not_found turn f (Command.show f (Command.insert b)) i
          ≡ some (j, ok tt, []))
        × (handle_line S not_found turn₂ f (Command.show f (Command.get b.cid)) j
            ≡ some (k, ok tt, Event.block b ∷ []))
        × (Event.from_str f (Event.show f (Event.block b)) ≡ Parsed.ok (Event.block b))
  unfolding execute
  insert-get-printed b i r h e g =
      let j = (Ipfs.insert S b i).0 in
      (
        j,
        (Ipfs.get S b.cid j).0,
        line-executes turn (Command.insert b) i h ∙ rw e refl,
        line-executes turn₂ (Command.get b.cid) j tt ∙ rw (get-insert S l b i r e g) refl,
        event_roundtrip f fl (Event.block b) h,
      )
