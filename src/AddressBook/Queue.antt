-- ===== src/AddressBook/Queue.antt =====
-- `poll` of src/net/peers.rs: the order in which dials leave, and the external addresses.
use ipfs_embed.Common.{
  ℕ, zero, suc, ◌≡◌, refl, ◌∙◌, Option, some, List, [], ◌∷◌, ◌++◌, arith, length,
}
use ipfs_embed.Multiaddr.{Multiaddr}
use ipfs_embed.Dialing.{Dial}
use ipfs_embed.AddressBook.{AddressBook}
use ipfs_embed.AddressBook.Callbacks.{poll}

-- What `n` polls give, with what the swarm reports and the deferred dial that is ready at each.
pub poll_times :
    (n : ℕ) → List Multiaddr → (ℕ → Option ℕ) → AddressBook → List (Option Dial) × AddressBook
poll_times zero external ready b = ([], b)
poll_times (suc n) external ready b =
    let r = poll external (ready n) b in
    let later = poll_times n external ready r.1 in (r.0 ∷ later.0, later.1)

abbrev pub somes : List Dial → List (Option Dial)
somes [] = []
somes (d ∷ ds) = some d ∷ somes ds

poll_queued :
    (external : List Multiaddr) (ready : Option ℕ) (b : AddressBook) (d : Dial) (rest : List Dial)
    → b.actions ≡ d ∷ rest
    → let r = poll external ready b in
      (r.0 ≡ some d) × (r.1.actions ≡ rest) × (r.1.deferred ≡ b.deferred)
unfolding poll
poll_queued external ready b d rest h = ground arith

-- Queued dials leave in the order in which they were queued, before any deferred dial, one for each
-- poll; meanwhile the deferred dials stay.
pub polls_in_order :
    (ds : List Dial) (external : List Multiaddr) (ready : ℕ → Option ℕ) (b : AddressBook)
    (later : List Dial)
    → b.actions ≡ ds ++ later
    → let r = poll_times (length ds) external ready b in
      (r.0 ≡ somes ds) × (r.1.actions ≡ later) × (r.1.deferred ≡ b.deferred)
unfolding poll_times poll
polls_in_order [] external ready b later h = (refl, h, refl)
polls_in_order (d ∷ ds) external ready b later h =
    let (o, a, e) = poll_queued external (ready (length ds)) b d (ds ++ later) h in
    let (os, as', es) =
      polls_in_order ds external ready (poll external (ready (length ds)) b).1 later a in
    (cc, as', es ∙ e)
