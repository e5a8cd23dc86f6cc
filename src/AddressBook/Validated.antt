-- ===== src/AddressBook/Validated.antt =====
-- The dials that `set_info` of src/net/peers.rs asks for.
use ipfs_embed.Common.{
  ◌≡◌, refl, Bool, true, false, not, ◌&&◌, Option, none, some, List, [], ◌∷◌, All, All-append,
  if◌then◌else◌, Option-cases, inl, inr, drop_last, nat_eq,
}
use ipfs_embed.Common.Assoc.{get, contains, contains_key}
use ipfs_embed.Multiaddr.{PeerId, Multiaddr, multiaddr_eq}
use ipfs_embed.PeerInfo.{PeerInfo, AddressSource, ingest_address}
use ipfs_embed.Dialing.{Dial, always}
use ipfs_embed.Events.{Env}
use ipfs_embed.AddressBook.{AddressBook, notify, dial_to, own_handler}
use ipfs_embed.AddressBook.Identify.{IdentifyInfo, validate, validate_all, set_info, cons_some}

-- No address that the dial names is among those given.
abbrev pub AvoidsAll : List Multiaddr → Option (List Multiaddr) → Type 0
AvoidsAll own none = Unit
AvoidsAll own (some addrs) = All (λ a. contains a own ≡ false) addrs

abbrev pub Avoids : List Multiaddr → Dial → Type 0
Avoids own d = AvoidsAll own d.addresses

module _ (env : Env) (peer : PeerId) (reuse : Bool) (own : List Multiaddr) where
  abbrev MayAvoid : Option Dial → Type 0
  MayAvoid none = Unit
  MayAvoid (some d) = Avoids own d

  picked :
      (known slow reused : Bool) (x y z w : PeerInfo) (d : Dial)
      → (known ≡ false → Avoids own d)
      → MayAvoid
          (if◌then◌else◌ {A = PeerInfo × Option Dial} known
            (x, none)
            (if slow then (y, none) else if reused then (z, none) else (w, some d))).1
  picked true slow reused x y z w d h = tt
  picked false true reused x y z w d h = tt
  picked false false true x y z w d h = tt
  picked false false false x y z w d h = h refl

  validate-Avoids :
      (a : Multiaddr) (info : PeerInfo) → MayAvoid (validate env peer reuse own a info).1
  unfolding validate
  validate-Avoids a info =
      let seen = ingest_address env.now a AddressSource.listen info in
      picked (contains (drop_last a) own) (not seen.1) (reuse && contains_key a seen.0.connections)
        info seen.0 (ingest_address env.now a AddressSource.candidate seen.0).0 seen.0
        (dial_to peer always (drop_last a) (own_handler a 4 false)) (λ e. (e, tt))

  validate_all-Avoids :
      (l : List Multiaddr) (info : PeerInfo)
      → All (Avoids own) (validate_all env peer reuse own l info).1
  unfolding validate_all
  validate_all-Avoids [] info = tt
  validate_all-Avoids (a ∷ l) info =
      kept _ (validate env peer reuse own a info).1 (validate-Avoids a info)
        (validate_all-Avoids l (validate env peer reuse own a info).0)
    where
      kept :
          (ds : List Dial) (o : Option Dial)
          → MayAvoid o
          → All (Avoids own) ds
          → All (Avoids own) (cons_some o ds)
      kept ds none m h = h
      kept ds (some d) m h = (m, h)

-- If no queued dial names an address that we listen on, then none does after the identification of
-- a peer, whatever the peer says.
pub set_info-Avoids :
    (env : Env) (peer : PeerId) (identify : IdentifyInfo) (b : AddressBook)
    → All (Avoids b.listeners) b.actions
    → All (Avoids b.listeners) (set_info env peer identify b).actions
unfolding set_info notify
set_info-Avoids env peer identify b h = elim (Option-cases (get peer b.peers)) [
  | inl e ↦ rw (e, set_info) h
  | inr (info, e) ↦
      rw (e, set_info)
        (All-append (Avoids b.listeners) b.actions _ h
          (validate_all-Avoids env peer b.port_reuse b.listeners _ _))
]
