-- ===== src/Harness/Roles.antt =====
-- The roles of harness/src/lib.rs share out the machines.
use ipfs_embed.Common.{
  ℕ, zero, suc, ◌+◌, ◌-◌, ◌≤◌, ◌≡◌, refl, sym, ap, Option, ◌>>=◌, ◌∙◌, some, List, [], ◌∷◌, ◌++◌,
  length, arith, take, drop, take_all, map, leb, true,
}
use ipfs_embed.Multiaddr.{PeerId, PeerCodec, Multiaddr}
use ipfs_embed.Harness.{
  HarnessOpts, provider, consumer, idle, range_of, slice, Machine, node, nodes, role,
}

le-leb : (a b : ℕ) → a ≤ b → leb a b ≡ true
le-leb a b h = ground arith

module _ {ℓ} {A : Type ℓ} where
  take-drop : (n : ℕ) (xs : List A) → take n xs ++ drop n xs ≡ xs
  take-drop zero xs = refl
  take-drop (suc n) [] = refl
  take-drop (suc n) (x ∷ xs) = ap (◌∷◌ x) (take-drop n xs)

  drop-nil : (m : ℕ) → drop {A = A} m [] ≡ []
  drop-nil zero = refl
  drop-nil (suc m) = refl

  drop-drop : (n m k : ℕ) (xs : List A) → k ≡ n + m → drop m (drop n xs) ≡ drop k xs
  drop-drop zero m k xs h = ap (λ i. drop i xs) (omega arith)
  drop-drop (suc n) m zero xs h = absurd (omega arith)
  drop-drop (suc n) m (suc k) [] h = drop-nil m
  drop-drop (suc n) m (suc k) (x ∷ xs) h = drop-drop n m k xs (omega arith)

  length-drop : (n : ℕ) (xs : List A) → length (drop n xs) ≡ length xs - n
  length-drop zero xs = omega arith
  length-drop (suc n) [] = omega arith
  length-drop (suc n) (x ∷ xs) = omega (arith, length-drop n xs)

  slice-some :
      (start end n : ℕ) (xs : List A)
      → start ≤ end
      → end ≤ length xs
      → n ≡ end - start
      → slice (start, end) xs ≡ some (take n (drop start xs))
  slice-some start end n xs h k e = rw (le-leb start end h, le-leb end (length xs) k, e) refl

  -- Three ranges that follow each other up to the end.
  ranges_cover :
      (p c : ℕ) (xs : List A)
      → take p xs ++ (take c (drop p xs) ++ take (length xs - (p + c)) (drop (p + c) xs)) ≡ xs
  ranges_cover p c xs =
      rw
        (
          take_all (length xs - (p + c)) (drop (p + c) xs) (omega (arith, length-drop (p + c) xs)),
          sym (drop-drop p c (p + c) xs refl),
          take-drop c (drop p xs),
        )
        (take-drop p xs)

map-append {ℓ κ} :
    {A : Type ℓ} {B : Type κ} (f : A → B) (xs ys : List A) → map f (xs ++ ys) ≡ map f xs ++ map f ys
map-append f [] ys = refl
map-append f (x ∷ xs) ys = ap (◌∷◌ (f x)) (map-append f xs ys)

-- With a machine for each node, and no more providers and consumers than nodes, the providers, the
-- consumers and the idle nodes are together all nodes, each once and in their order, with the peer id
-- at the end of each address.
pub roles_cover :
    (codec : PeerCodec) (opts : HarnessOpts) (machines : List Machine)
    → opts.n_nodes ≡ length machines
    → opts.n_providers + opts.n_consumers ≤ opts.n_nodes
    → (ps cs is : List (ℕ × (PeerId × Multiaddr))) × (role codec opts provider machines ≡ some ps)
      × (role codec opts consumer machines ≡ some cs)
      × (role codec opts idle machines ≡ some is)
      × (ps ++ (cs ++ is) ≡ map (node codec) machines)
unfolding role nodes range_of
roles_cover codec opts machines e h =
    let p = opts.n_providers in
    let c = opts.n_consumers in
    let as_nodes = λ (o : Option (List Machine)). o >>= λ ms. some (map (node codec) ms) in
    let s₁ = take p machines in
    let s₂ = take c (drop p machines) in
    let s₃ = take (length machines - (p + c)) (drop (p + c) machines) in
    (
      map (node codec) s₁,
      map (node codec) s₂,
      map (node codec) s₃,
      ap as_nodes (slice-some 0 p p machines (omega arith) (omega arith) (omega arith)),
      ap as_nodes (slice-some p (p + c) c machines (omega arith) (omega arith) (omega arith)),
      ap as_nodes (
          slice-some (p + c) opts.n_nodes (length machines - (p + c)) machines h (omega arith)
            (omega arith)),
      ap (λ t. map (node codec) s₁ ++ t) (sym (map-append (node codec) s₂ s₃))
          ∙ (sym (map-append (node codec) s₁ (s₂ ++ s₃))
              ∙ ap (λ t. map (node codec) t) (ranges_cover p c machines)),
    )
