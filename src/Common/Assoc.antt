-- ===== src/Common/Assoc.antt =====
-- `HashMap` as an association list, and `HashSet` as a list. An overwrite keeps the entry's place;
-- the program never relies on the order.
use Prim.Native.Nat.{suc, ◌+◌}
use mathlib.Core.Path.{◌≡◌, refl, sym}
use mathlib.Core.Logic.{◌≢◌, inl, inr}
use mathlib.Core.Bool.{Bool, true, false, not, ◌||◌}
use mathlib.Core.Option.{Option, none, some}
use mathlib.Core.List.{List, [], ◌∷◌, map}
use native.Mathlib.Omega.{arith}
use ipfs_embed.Common.Tests.{if◌then◌else◌, is_some, Bool-cases}
use ipfs_embed.Common.Lists.{length, All, any, filterb, is_empty}
use ipfs_embed.Common.Equality.{HasEq, ◌==◌, beq_refl, beq_ne}

abbrev pub Assoc {ℓ κ} : Type ℓ → Type κ → Type (ℓ ⊔ κ)
Assoc K V = List (K × V)

module _ {ℓ κ} {K : Type ℓ} {V : Type κ} ⦃e : HasEq K⦄ where
  unfoldable pub get : K → Assoc K V → Option V
  get k [] = none
  get k ((j, v) ∷ m) = if j == k then some v else get k m

  unfoldable pub insert : K → V → Assoc K V → Assoc K V
  insert k v [] = (k, v) ∷ []
  insert k v ((j, w) ∷ m) = if j == k then (k, v) ∷ m else (j, w) ∷ insert k v m

  unfoldable pub remove : K → Assoc K V → Assoc K V
  remove k [] = []
  remove k ((j, v) ∷ m) = let rest = remove k m in if j == k then rest else (j, v) ∷ rest

  abbrev pub contains_key : K → Assoc K V → Bool
  contains_key k m = is_some (get k m)

  pub get-insert :
      (k j : K) (v : V) (m : Assoc K V)
      → get j (insert k v m) ≡ (if k == j then some v else get j m)
  unfolding get insert
  get-insert k j v [] = refl
  get-insert k j v ((i, w) ∷ m) =
      ground (arith, e.beq_iff k j, e.beq_iff i k, e.beq_iff i j, get-insert k j v m)

  pub get-remove :
      (k j : K) (m : Assoc K V) → get j (remove k m) ≡ (if k == j then none else get j m)
  unfolding get remove
  get-remove k j [] = ground arith
  get-remove k j ((i, w) ∷ m) =
      ground (arith, e.beq_iff k j, e.beq_iff i k, e.beq_iff i j, get-remove k j m)

  pub get-insert_self : (k : K) (v : V) (m : Assoc K V) → get k (insert k v m) ≡ some v
  get-insert_self k v m = simp (get-insert, beq_refl)

  pub get-insert_ne : (k j : K) (v : V) (m : Assoc K V) → k ≢ j → get j (insert k v m) ≡ get j m
  get-insert_ne k j v m h = rw (get-insert k j v m, beq_ne k j h) refl

  pub get-remove_self : (k : K) (m : Assoc K V) → get k (remove k m) ≡ none
  get-remove_self k m = simp (get-remove, beq_refl)

  pub get-remove_ne : (k j : K) (m : Assoc K V) → k ≢ j → get j (remove k m) ≡ get j m
  get-remove_ne k j m h = rw (get-remove k j m, beq_ne k j h) refl

  module _ {μ} (P : K × V → Type μ) where
    pub All-insert : (k : K) (v : V) (m : Assoc K V) → All P m → P (k, v) → All P (insert k v m)
    unfolding insert
    All-insert k v [] h p = (p, tt)
    All-insert k v ((j, w) ∷ m) h p = elim (Bool-cases (j == k)) [
      | inl t ↦ rw t (p, h.1)
      | inr f ↦ rw f (h.0, All-insert k v m h.1 p)
    ]

    pub All-remove : (k : K) (m : Assoc K V) → All P m → All P (remove k m)
    unfolding remove
    All-remove k [] h = tt
    All-remove k ((j, w) ∷ m) h = elim (Bool-cases (j == k)) [
      | inl t ↦ rw t (All-remove k m h.1)
      | inr f ↦ rw f (h.0, All-remove k m h.1)
    ]

    pub All-get : (k : K) (v : V) (m : Assoc K V) → All P m → get k m ≡ some v → P (k, v)
    unfolding get
    All-get k v [] h g = cc
    All-get k v ((j, w) ∷ m) h g = elim (Bool-cases (j == k)) [
      | inl t ↦ let j_k = (e.beq_iff j k).0 t in rw (sym j_k, ← some_inj (rw t at g)) h.0
      | inr f ↦ All-get k v m h.1 (rw f at g)
    ]
      where
        some_inj : some w ≡ some v → w ≡ v
        some_inj p = cc

module _ {ℓ} {K : Type ℓ} ⦃e : HasEq K⦄ where
  -- A set of keys.
  unfoldable pub contains : K → List K → Bool
  contains k [] = false
  contains k (j ∷ s) = j == k || contains k s

  unfoldable pub insert_key : K → List K → List K
  insert_key k [] = k ∷ []
  insert_key k (j ∷ s) = if j == k then j ∷ s else j ∷ insert_key k s

  unfoldable pub remove_key : K → List K → List K
  remove_key k [] = []
  remove_key k (j ∷ s) = if j == k then s else j ∷ remove_key k s

  pub contains-insert_key :
      (k j : K) (s : List K) → contains j (insert_key k s) ≡ (k == j || contains j s)
  unfolding contains insert_key
  contains-insert_key k j [] = refl
  contains-insert_key k j (i ∷ s) =
      ground (arith, e.beq_iff k j, e.beq_iff i k, e.beq_iff i j, contains-insert_key k j s)

  pub length-insert_key :
      (k : K) (s : List K)
      → length (insert_key k s) ≡ (if contains k s then length s else suc (length s))
  unfolding contains insert_key
  length-insert_key k [] = refl
  length-insert_key k (i ∷ s) = ground (arith, length-insert_key k s)

  pub length-remove_key :
      (k : K) (s : List K)
      → length s ≡ (if contains k s then length (remove_key k s) + 1 else length (remove_key k s))
  unfolding contains remove_key
  length-remove_key k [] = refl
  length-remove_key k (i ∷ s) = ground (arith, length-remove_key k s)

module _ {ℓ κ} {K : Type ℓ} {V : Type κ} ⦃e : HasEq K⦄ (p : K × V → Bool) where
  abbrev pub holds_at : K → Option V → Bool
  holds_at k none = false
  holds_at k (some v) = p (k, v)

  -- An overwrite that does not falsify the test.
  pub any-insert :
      (k : K) (v : V) (m : Assoc K V)
      → (holds_at k (get k m) ≡ true → p (k, v) ≡ true)
      → any p (insert k v m) ≡ (any p m || p (k, v))
  unfolding get insert
  any-insert k v [] h = ground arith
  any-insert k v ((j, w) ∷ m) h = elim (Bool-cases (j == k)) [
    | inl t ↦ ground (arith, e.beq_iff j k)
    | inr f ↦ let later = any-insert k v m (rw f at h) in ground (arith, later)
  ]

pub not-is_empty-filterb {ℓ κ} :
    {A : Type ℓ} {B : Type κ} (f : A → B) (p : A → Bool) (xs : List A)
    → not (is_empty (map f (filterb p xs))) ≡ any p xs
not-is_empty-filterb f p [] = refl
not-is_empty-filterb f p (x ∷ xs) = ground (arith, not-is_empty-filterb f p xs)

pub any-get {ℓ κ} :
    {K : Type ℓ} {V : Type κ} ⦃e : HasEq K⦄ (p : K × V → Bool) (k : K) (m : Assoc K V)
    → holds_at p k (get k m) ≡ true
    → any p m ≡ true
unfolding get
any-get p k [] h = h
any-get ⦃e⦄ p k ((j, w) ∷ m) h = elim (Bool-cases (j == k)) [
  | inl t ↦ ground (arith, e.beq_iff j k)
  | inr f ↦ let later = any-get p k m (rw f at h) in ground (arith, later)
]

pub All-insert_key {ℓ μ} :
    {K : Type ℓ} ⦃e : HasEq K⦄ (P : K → Type μ) (k : K) (s : List K)
    → P k
    → All P s
    → All P (insert_key k s)
unfolding insert_key
All-insert_key P k [] p h = (p, tt)
All-insert_key P k (j ∷ s) p h = elim (Bool-cases (j == k)) [
  | inl t ↦ rw t h
  | inr f ↦ rw f (h.0, All-insert_key P k s p h.1)
]

pub All-filterb {ℓ μ} :
    {A : Type ℓ} (P : A → Type μ) (p : A → Bool) (xs : List A) → All P xs → All P (filterb p xs)
All-filterb P p [] h = tt
All-filterb P p (x ∷ xs) h = elim (Bool-cases (p x)) [
  | inl t ↦ rw (t, filterb) (h.0, All-filterb P p xs h.1)
  | inr f ↦ rw (f, filterb) (All-filterb P p xs h.1)
]

pub All-map {ℓ κ μ} :
    {A : Type ℓ} {B : Type κ} (P : A → Type μ) (Q : B → Type μ) (f : A → B)
    → ((x : A) → P x → Q (f x))
    → (xs : List A) → All P xs
    → All Q (map f xs)
All-map P Q f h [] a = tt
All-map P Q f h (x ∷ xs) a = (h x a.0, All-map P Q f h xs a.1)
