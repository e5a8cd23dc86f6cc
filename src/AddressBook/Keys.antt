-- ===== src/AddressBook/Keys.antt =====
-- The invariant of an `AddressBook` of src/net/peers.rs, with the `debug_assert!` of
-- `ingest_address`, and the changes of records that src/net/peers.rs makes.
use mathlib.Core.Path.{subst}
use ipfs_embed.Common.{
  ◌≤◌, ◌≡◌, sym, Bool, true, some, ◌∷◌, arith, All, length, nat_eq, Option-cases, inl, inr,
  length-take-le,
}
use ipfs_embed.Common.Assoc.{Assoc, get, insert, remove, All-insert, All-remove, All-get}
use ipfs_embed.Common.Distinct.{Distinct, keys, Distinct-insert, Distinct-remove}
use ipfs_embed.Multiaddr.{PeerId, Multiaddr, multiaddr_eq, ends_with_peer}
use ipfs_embed.PeerInfo.{
  PeerInfo, Time, AddressSource, ConnectionFailure, default_info, ingest_address, push_failure,
}
use ipfs_embed.PeerInfo.Failures.{failures-push_failure}
use ipfs_embed.AddressBook.{AddressBook, info_of}

abbrev pub Named {ℓ} : {V : Type ℓ} → Multiaddr × V → Type 0
Named e = ends_with_peer e.0 ≡ true

pub record InfoIsValid (info : PeerInfo) : Type 0 where
  pub few_failures : length info.failures ≤ 10
  pub addresses_named : All Named info.addresses
  pub connections_named : All Named info.connections

pub record PeersAreValid (peers : Assoc PeerId PeerInfo) : Type 0 where
  pub records : All (λ e. InfoIsValid e.1) peers
  pub one_each : Distinct (keys peers)

pub default-IsValid : InfoIsValid default_info
default-IsValid = record {
  few_failures = omega arith;
  addresses_named = tt;
  connections_named = tt;
}

pub info_of-IsValid :
    (peer : PeerId) (b : AddressBook) → PeersAreValid b.peers → InfoIsValid (info_of peer b)
info_of-IsValid peer b v = elim (Option-cases (get peer b.peers)) [
  | inl e ↦ rw e default-IsValid
  | inr (info, e) ↦ rw e (All-get (λ e. InfoIsValid e.1) peer info b.peers v.records e)
]

pub get-IsValid :
    (peer : PeerId) (info : PeerInfo) (peers : Assoc PeerId PeerInfo)
    → PeersAreValid peers
    → get peer peers ≡ some info
    → InfoIsValid info
get-IsValid peer info peers v e = All-get (λ e. InfoIsValid e.1) peer info peers v.records e

pub insert-AreValid :
    (peer : PeerId) (info : PeerInfo) (peers : Assoc PeerId PeerInfo)
    → PeersAreValid peers
    → InfoIsValid info
    → PeersAreValid (insert peer info peers)
insert-AreValid peer info peers v h = record {
  records = All-insert (λ e. InfoIsValid e.1) peer info peers v.records h;
  one_each = Distinct-insert peer info peers v.one_each;
}

pub remove-AreValid :
    (peer : PeerId) (peers : Assoc PeerId PeerInfo)
    → PeersAreValid peers
    → PeersAreValid (remove peer peers)
remove-AreValid peer peers v = record {
  records = All-remove (λ e. InfoIsValid e.1) peer peers v.records;
  one_each = Distinct-remove peer peers v.one_each;
}

pub ingest-IsValid :
    (now : Time) (a : Multiaddr) (s : AddressSource) (info : PeerInfo)
    → InfoIsValid info
    → ends_with_peer a ≡ true
    → InfoIsValid (ingest_address now a s info).0
unfolding ingest_address
ingest-IsValid now a s info v h = record {
  few_failures = v.few_failures;
  addresses_named = All-insert Named a _ info.addresses v.addresses_named h;
  connections_named = v.connections_named;
}

pub forget-IsValid :
    (a : Multiaddr) (info : PeerInfo)
    → InfoIsValid info
    → InfoIsValid (record info { addresses = remove a info.addresses })
forget-IsValid a info v = record {
  few_failures = v.few_failures;
  addresses_named = All-remove Named a info.addresses v.addresses_named;
  connections_named = v.connections_named;
}

pub disconnect-IsValid :
    (a : Multiaddr) (info : PeerInfo)
    → InfoIsValid info
    → InfoIsValid (record info { connections = remove a info.connections })
disconnect-IsValid a info v = record {
  few_failures = v.few_failures;
  addresses_named = v.addresses_named;
  connections_named = All-remove Named a info.connections v.connections_named;
}

length-push_failure :
    (a : Multiaddr) (f : ConnectionFailure) (p : Bool) (info : PeerInfo)
    → length info.failures ≤ 10
    → length (push_failure a f p info).failures ≤ 10
length-push_failure a f p info h =
    subst (λ fs. length fs ≤ 10) (sym (failures-push_failure a f p info h))
      (length-take-le 10 (f ∷ info.failures))

pub push_failure-IsValid :
    (a : Multiaddr) (f : ConnectionFailure) (p : Bool) (info : PeerInfo)
    → InfoIsValid info
    → InfoIsValid (push_failure a f p info)
unfolding push_failure
push_failure-IsValid a f p info v = record {
  few_failures = length-push_failure a f p info v.few_failures;
  addresses_named = ground (arith, All-remove Named a info.addresses v.addresses_named);
  connections_named = v.connections_named;
}

abbrev pub IsValid : AddressBook → Type 0
IsValid b = PeersAreValid b.peers
