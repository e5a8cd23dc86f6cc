-- ===== src/Common/Distinct.antt =====
-- Lists without repetition, and maps with one entry for each key.
use mathlib.Core.Path.{◌≡◌, refl}
use mathlib.Core.Bool.{Bool, false, ◌&&◌}
use mathlib.Core.List.{List, [], ◌∷◌, map}
use native.Mathlib.Omega.{arith}
use ipfs_embed.Common.Tests.{is_some}
use ipfs_embed.Common.Lists.{filterb}
use ipfs_embed.Common.Equality.{HasEq}
use ipfs_embed.Common.Assoc.{Assoc, get, insert, remove, contains, get-insert, get-remove, holds_at}

module _ {ℓ} {K : Type ℓ} ⦃e : HasEq K⦄ where
  abbrev pub Distinct : List K → Type 0
  Distinct [] = Unit
  Distinct (k ∷ ks) = (contains k ks ≡ false) × Distinct ks

  pub contains-filterb :
      (p : K → Bool) (k : K) (s : List K) → contains k (filterb p s) ≡ (p k && contains k s)
  unfolding contains
  contains-filterb p k [] = ground arith
  contains-filterb p k (j ∷ s) = ground (arith, e.beq_iff j k, contains-filterb p k s)

  pub Distinct-filterb : (p : K → Bool) (s : List K) → Distinct s → Distinct (filterb p s)
  Distinct-filterb p [] h = tt
  Distinct-filterb p (j ∷ s) h = ground (arith, contains-filterb p j s, Distinct-filterb p s h.1)

module _ {ℓ κ} {K : Type ℓ} {V : Type κ} ⦃e : HasEq K⦄ where
  abbrev pub keys : Assoc K V → List K
  keys m = map (λ e. e.0) m

  pub contains-keys : (k : K) (m : Assoc K V) → contains k (keys m) ≡ is_some (get k m)
  unfolding contains get
  contains-keys k [] = refl
  contains-keys k ((j, v) ∷ m) = ground (arith, contains-keys k m)

  pub Distinct-insert :
      (k : K) (v : V) (m : Assoc K V) → Distinct (keys m) → Distinct (keys (insert k v m))
  unfolding insert contains
  Distinct-insert k v [] h = (refl, tt)
  Distinct-insert k v ((j, w) ∷ m) h = ground (
    arith,
    e.beq_iff j k,
    e.beq_iff k j,
    contains-keys j m,
    contains-keys k m,
    contains-keys j (insert k v m),
    get-insert k j v m,
    Distinct-insert k v m h.1,
  )

  pub Distinct-remove : (k : K) (m : Assoc K V) → Distinct (keys m) → Distinct (keys (remove k m))
  unfolding remove
  Distinct-remove k [] h = tt
  Distinct-remove k ((j, w) ∷ m) h = ground (
    arith,
    e.beq_iff j k,
    e.beq_iff k j,
    contains-keys j m,
    contains-keys j (remove k m),
    get-remove k j m,
    Distinct-remove k m h.1,
  )

  -- In a map with one entry for each key, a key passes a filter by its entry.
  pub contains-keys-filterb :
      (p : K × V → Bool) (k : K) (m : Assoc K V)
      → Distinct (keys m)
      → contains k (keys (filterb p m)) ≡ holds_at p k (get k m)
  unfolding contains get
  contains-keys-filterb p k [] h = refl
  contains-keys-filterb p k ((j, v) ∷ m) h = ground (
    arith,
    e.beq_iff j k,
    contains-keys-filterb p k m h.1,
    contains-keys k m,
    contains-keys j m,
    contains-keys-filterb p j m h.1,
  )
