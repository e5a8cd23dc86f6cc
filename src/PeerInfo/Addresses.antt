-- ===== src/PeerInfo/Addresses.antt =====
-- `ingest_address` of src/net/peer_info.rs: the best source of each address, and when to probe.
use Prim.Native.Nat.{max}
use ipfs_embed.Common.{
  ℕ, ◌+◌, ◌*◌, ◌≤◌, ◌≡◌, refl, Bool, true, false, Option, none, some, List, [], ◌∷◌, arith, ◌&&◌,
  ltb, if◌then◌else◌, ◌==◌, ◌||◌,
}
use ipfs_embed.Common.Assoc.{get, get-insert}
use ipfs_embed.Multiaddr.{Multiaddr, multiaddr_eq}
use ipfs_embed.PeerInfo.Failures.{addresses-push_failure}
use ipfs_embed.PeerInfo.{
  PeerInfo, Time, AddressSource, rank, is_confirmed, is_to_probe, ingest_entry, ingest_address,
  incoming, listen, kad, mdns, ConnectionFailure, push_failure,
}

-- What an ingest does to every address: its own gets the entry of `ingest_entry`, others keep theirs.
pub get-ingest_address :
    (now : Time) (a b : Multiaddr) (s : AddressSource) (info : PeerInfo)
    → get b (ingest_address now a s info).0.addresses ≡ (
        if a == b then some (ingest_entry now s (get a info.addresses)).0 else get b info.addresses)
unfolding ingest_address
get-ingest_address now a b s info = get-insert a b _ info.addresses

abbrev pub rank_of : Option (AddressSource × Time) → ℕ
rank_of none = 0
rank_of (some (s, t)) = rank s

abbrev pub newer : AddressSource → Option (AddressSource × Time) → Bool
newer s none = true
newer s (some (known, t)) = ltb (rank known) (rank s)

-- The entry after an ingest has the clock reading and the better of the two sources, and a probe is
-- asked for exactly when the source is one to probe and better than what was known.
pub ingest_entry_lem :
    (now : Time) (s : AddressSource) (o : Option (AddressSource × Time))
    → let r = ingest_entry now s o in
      (r.0.1 ≡ now) × (rank r.0.0 ≡ max (rank s) (rank_of o)) × (r.1 ≡ (is_to_probe s && newer s o))
ingest_entry_lem now s none = ground arith
ingest_entry_lem now s (some (known, t)) = ground arith

abbrev pub confirmed_known : Option (AddressSource × Time) → Bool
confirmed_known none = false
confirmed_known (some (known, t)) = is_confirmed known

-- An address is confirmed after a sighting if it was before, or if the new source confirms.
pub is_confirmed-ingest_entry :
    (now : Time) (s : AddressSource) (o : Option (AddressSource × Time))
    → is_confirmed (ingest_entry now s o).0.0 ≡ (confirmed_known o || is_confirmed s)
unfolding is_confirmed
is_confirmed-ingest_entry now s none = refl
is_confirmed-ingest_entry now s (some (known, t)) = ground arith

-- An address is seen from a source, or a dial of one fails, with a probe result or not.
pub data Happening : Type 0 where
  seen : Time → Multiaddr → AddressSource → Happening
  failed : Multiaddr → ConnectionFailure → Bool → Happening

-- The record after what happens, oldest first, and the probes that the sightings asked for.
pub happened : List Happening → PeerInfo → PeerInfo × List Multiaddr
happened [] info = (info, [])
happened (seen now a s ∷ rest) info =
    let r = ingest_address now a s info in
    let later = happened rest r.0 in (later.0, if r.1 then a ∷ later.1 else later.1)
happened (failed a f is_probe ∷ rest) info = happened rest (push_failure a f is_probe info)

-- How many of the failures are those of a probe of the address.
abbrev pub failed_probes : Multiaddr → List Happening → ℕ
failed_probes a [] = 0
failed_probes a (seen now b s ∷ rest) = failed_probes a rest
failed_probes a (failed b f is_probe ∷ rest) =
    (if is_probe && b == a then 1 else 0) + failed_probes a rest

abbrev pub count : Multiaddr → List Multiaddr → ℕ
count a [] = 0
count a (b ∷ bs) = (if b == a then 1 else 0) + count a bs

-- How many sources to probe are better than the one known.
abbrev pub budget : Option (AddressSource × Time) → ℕ
budget none = 4
budget (some (incoming, t)) = 4
budget (some (listen, t)) = 3
budget (some (kad, t)) = 2
budget (some (mdns, t)) = 1
budget (some (_, t)) = 0

abbrev cost : Bool → ℕ
cost true = 1
cost false = 0

budget-ingest_known :
    (now t : Time) (s known : AddressSource)
    → cost (ingest_entry now s (some (known, t))).1
        + budget (some (ingest_entry now s (some (known, t))).0)
      ≤ budget (some (known, t))
unfolding is_to_probe
budget-ingest_known now t s incoming = ground arith
budget-ingest_known now t s listen = ground arith
budget-ingest_known now t s kad = ground arith
budget-ingest_known now t s mdns = ground arith
budget-ingest_known now t s _ = ground arith

budget-ingest_entry :
    (now : Time) (s : AddressSource) (o : Option (AddressSource × Time))
    → cost (ingest_entry now s o).1 + budget (some (ingest_entry now s o).0) ≤ budget o
unfolding is_to_probe
budget-ingest_entry now s none = ground arith
budget-ingest_entry now s (some (known, t)) = budget-ingest_known now t s known

ingest-probe :
    (now : Time) (a : Multiaddr) (s : AddressSource) (info : PeerInfo)
    → (ingest_address now a s info).1 ≡ (ingest_entry now s (get a info.addresses)).1
unfolding ingest_address
ingest-probe now a s info = refl

-- A failure costs no probe, and a failed probe of the address gives at most four back.
budget-push_failure :
    (a b : Multiaddr) (f : ConnectionFailure) (is_probe : Bool) (info : PeerInfo)
    → budget (get a (push_failure b f is_probe info).addresses)
      ≤ budget (get a info.addresses) + 4 * (if is_probe && b == a then 1 else 0)
budget-push_failure a b f is_probe info = ground (arith, addresses-push_failure b a f is_probe info)

-- In any run of sightings and of failures that `push_failure` records, for an address and among any
-- others, the address is probed at most four times, and less often by as many sources as its known
-- source already beats, plus at most four times for each failed probe of it.
pub probes_bounded :
    (happenings : List Happening) (a : Multiaddr) (info : PeerInfo)
    → count a (happened happenings info).1
      ≤ budget (get a info.addresses) + 4 * failed_probes a happenings
unfolding happened
probes_bounded [] a info = omega arith
probes_bounded (seen now b s ∷ rest) a info = ground (
  arith,
  multiaddr_eq.beq_iff b a,
  probes_bounded rest a (ingest_address now b s info).0,
  get-ingest_address now b a s info,
  ingest-probe now b s info,
  budget-ingest_entry now s (get b info.addresses),
)
probes_bounded (failed b f is_probe ∷ rest) a info = omega (
  arith,
  probes_bounded rest a (push_failure b f is_probe info),
  budget-push_failure a b f is_probe info,
)
