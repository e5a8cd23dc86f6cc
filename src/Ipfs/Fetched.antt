-- ===== src/Ipfs/Fetched.antt =====
-- `insert`, `get` and `fetch` of src/lib.rs, over the map of what is stored.
use ipfs_embed.Common.{
  ℕ, ◌≡◌, ◌≢◌, refl, sym, ap, ◌∙◌, Option, none, some, List, [], ◌∷◌, ◌⊎◌, inl, inr, arith, nat_eq,
  if◌then◌else◌, beq_refl,
}
use ipfs_embed.Multiaddr.{PeerId}
use ipfs_embed.Behaviour.{Result, Cid, Done}
use ipfs_embed.Storage.{BlockStore, Storage, Answer, ok, failed, Error, Block}
use ipfs_embed.Storage.Calls
use ipfs_embed.Storage.Contents.{IsBlockStore, stored, stored-get, stored-insert}
use ipfs_embed.Network.{
  sent, ask, cmd, handle_send_result, Received, received, dropped, Called, refused, waiting,
  GetQuery, drop_get, end_of,
}
use ipfs_embed.Network.Sending
use ipfs_embed.Ipfs.{
  Ipfs, Fetching, found, get, insert, fetch, fetch_rest, read_again, settled, queried,
}

module _ (S : BlockStore) (l : IsBlockStore S) where
  -- The answer of `get`, by what the store answers.
  found-ok :
      (cid : Cid) (a : Answer (Option (List ℕ))) (b : Block)
      → found S cid a ≡ ok b
      → (b.cid ≡ cid) × (a ≡ ok (some b.bytes))
  found-ok cid (ok (some bytes)) b h = (cc, cc)
  found-ok cid (ok none) b h = ground arith
  found-ok cid (failed e) b h = ground arith

  -- A block that was inserted is what `get` returns whenever its read of the store does not fail.
  pub get-insert :
      (b : Block) (i : Ipfs S) (r : Option (List ℕ))
      → (insert S b i).1 ≡ ok tt
      → (Calls.get S b.cid (insert S b i).0.storage).1 ≡ ok r
      → (get S b.cid (insert S b i).0).1 ≡ ok b
  unfolding insert get
  get-insert b i r h g =
      let s = (Calls.insert S b i.storage).0 in
      let held : stored S l s b.cid ≡ some b.bytes =
        stored-insert S l b i.storage b.cid h
        ∙ ap (λ t. if t then some b.bytes else stored S l i.storage b.cid) (beq_refl b.cid) in
      let e : r ≡ some b.bytes = stored-get S l b.cid s r g ∙ held in rw (g, e) refl

  -- The block of an answer stands in the store `s`.
  abbrev IsStored : Cid → Storage S → Block → Type 0
  IsStored cid s b = (b.cid ≡ cid) × (stored S l s cid ≡ some b.bytes)

  found-IsStored :
      (cid : Cid) (s : Storage S) (b : Block)
      → found S cid (Calls.get S cid s).1 ≡ ok b
      → IsStored cid s b
  found-IsStored cid s b h =
      let p = found-ok cid (Calls.get S cid s).1 b h in
      (p.0, sym (stored-get S l cid s (some b.bytes) p.1))

  read_again-IsStored :
      (cid : Cid) (i : Ipfs S) (a : Answer Done) (b : Block)
      → (read_again S cid (i, a)).1 ≡ ok b
      → IsStored cid i.storage b
  unfolding get
  read_again-IsStored cid i (failed e) b h = ground arith
  read_again-IsStored cid i (ok done) b h = found-IsStored cid i.storage b h

  queried-IsStored :
      (w : Fetching S) (cid : Cid) (i : Ipfs S) (b : Block) (q : Received GetQuery)
      → (read_again S cid (queried S w q i)).1 ≡ ok b
      → IsStored cid i.storage b
  queried-IsStored w cid i b dropped h = read_again-IsStored cid i (failed Error.canceled) b h
  queried-IsStored w cid i b (received q) h =
      read_again-IsStored cid (record i { network = drop_get w.cancel q i.network })
        (end_of w.outcome) b h

  settled-IsStored :
      (w : Fetching S) (cid : Cid) (i : Ipfs S) (b : Block) (c : Called)
      → (read_again S cid (settled S w c i)).1 ≡ ok b
      → IsStored cid (w.meanwhile i.storage) b
  settled-IsStored w cid i b (refused reason) h = ground arith
  settled-IsStored w cid i b (waiting tx) h =
      queried-IsStored w cid (record i { storage = w.meanwhile i.storage }) b w.query h

  -- By what the first read answered.
  fetch_rest-stored :
      (w : Fetching S) (cid : Cid) (providers : List PeerId) (i : Ipfs S) (b : Block)
      (a : Answer (Option (List ℕ))) (s : Storage S)
      → ((r : Option (List ℕ)) → a ≡ ok r → r ≡ stored S l s cid)
      → (fetch_rest S w cid providers i a).1 ≡ ok b
      → (b.cid ≡ cid)
        × ((stored S l s cid ≡ some b.bytes)
            ⊎ ((stored S l s cid ≡ none)
                × (providers ≢ [])
                × (stored S l (w.meanwhile i.storage) cid ≡ some b.bytes)))
  fetch_rest-stored w cid providers i b (ok (some bytes)) s e h =
      (cc, inl (sym (e (some bytes) refl) ∙ cc))
  fetch_rest-stored w cid providers i b (failed x) s e h = ground arith
  fetch_rest-stored w cid [] i b (ok none) s e h = ground arith
  fetch_rest-stored w cid (p ∷ providers) i b (ok none) s e h =
      let r = Sending.get w.command w.channel cid (p ∷ providers) i.network in
      let q = settled-IsStored w cid (record i { network = r.0 }) b r.1 h in
      (q.0, inr (sym (e none refl), ground arith, q.1))

  -- A block that `fetch` returns has the `Cid` that was asked for, and is in the store: it was there
  -- before, or it was not, some provider was given, and it is there after the wait.
  fetch-ok :
      (w : Fetching S) (cid : Cid) (providers : List PeerId) (i : Ipfs S) (b : Block)
      → (fetch S w cid providers i).1 ≡ ok b
      → (b.cid ≡ cid)
        × ((stored S l i.storage cid ≡ some b.bytes)
            ⊎ ((stored S l i.storage cid ≡ none)
                × (providers ≢ [])
                × (stored S l (w.meanwhile (Calls.get S cid i.storage).0) cid ≡ some b.bytes)))
  unfolding fetch
  fetch-ok w cid providers i b h =
      let r = Calls.get S cid i.storage in
      fetch_rest-stored w cid providers (record i { storage = r.0 }) b r.1 i.storage
        (stored-get S l cid i.storage) h

  -- A read that finds the block, or one that finds nothing and a query that comes to a good end with
  -- the block in the store.
  fetch-found :
      (w : Fetching S) (cid : Cid) (providers : List PeerId) (i : Ipfs S) (bytes : List ℕ)
      → (Calls.get S cid i.storage).1 ≡ ok (some bytes)
      → (fetch S w cid providers i).1 ≡ ok (record { cid = cid; bytes = bytes })
  unfolding fetch
  fetch-found w cid providers i bytes h = rw h refl

  fetch-arrived :
      (w : Fetching S) (cid : Cid) (providers : List PeerId) (i : Ipfs S) (bytes : List ℕ)
      (q : GetQuery)
      → (Calls.get S cid i.storage).1 ≡ ok none
      → providers ≢ []
      → w.command ≡ sent
      → w.query ≡ received q
      → w.outcome ≡ received (Result.ok tt)
      → (Calls.get S cid (w.meanwhile (Calls.get S cid i.storage).0)).1 ≡ ok (some bytes)
      → (fetch S w cid providers i).1 ≡ ok (record { cid = cid; bytes = bytes })
  unfolding fetch get Sending.get ask cmd handle_send_result
  fetch-arrived w cid [] i bytes q h n c e o g = absurd (n refl)
  fetch-arrived w cid (p ∷ providers) i bytes q h n c e o g = rw (h, c, e, o, g) refl

  -- A block that is stored is fetched whenever its read does not fail, whatever the providers. One that
  -- is not is fetched when there is a provider, the command is sent, the query is answered and ends
  -- well, and the read after the wait finds the block. And a block that `fetch` returns has the `Cid`
  -- that was asked for and stands in the store: before the wait, or, where it did not and some
  -- provider was given, after it.
  pub fetch_lem :
      (w : Fetching S) (cid : Cid) (providers : List PeerId) (i : Ipfs S)
      → ((bytes : List ℕ) (r : Option (List ℕ))
          → stored S l i.storage cid ≡ some bytes
          → (Calls.get S cid i.storage).1 ≡ ok r
          → (fetch S w cid providers i).1 ≡ ok (record { cid = cid; bytes = bytes }))
        × ((bytes : List ℕ) (q : GetQuery)
            → (Calls.get S cid i.storage).1 ≡ ok none
            → providers ≢ []
            → w.command ≡ sent
            → w.query ≡ received q
            → w.outcome ≡ received (Result.ok tt)
            → (Calls.get S cid (w.meanwhile (Calls.get S cid i.storage).0)).1 ≡ ok (some bytes)
            → (fetch S w cid providers i).1 ≡ ok (record { cid = cid; bytes = bytes }))
        × ((b : Block)
            → (fetch S w cid providers i).1 ≡ ok b
            → (b.cid ≡ cid)
              × ((stored S l i.storage cid ≡ some b.bytes)
                  ⊎ ((stored S l i.storage cid ≡ none)
                      × (providers ≢ [])
                      × (stored S l (w.meanwhile (Calls.get S cid i.storage).0) cid
                          ≡ some b.bytes))))
  fetch_lem w cid providers i = (
    λ bytes r h g.
        (let e : r ≡ some bytes = stored-get S l cid i.storage r g ∙ h in
          fetch-found w cid providers i bytes (g ∙ ap ok e)),
    fetch-arrived w cid providers i,
    fetch-ok w cid providers i,
  )
