-- ===== src/AddressBook/Redial.antt =====
-- The redials of `inject_dial_failure` of src/net/peers.rs: how many, how soon, and which addresses
-- a failure costs.
use ipfs_embed.Common.{
  ℕ, suc, ◌-◌, ◌<◌, ◌≤◌, ◌≡◌, refl, sym, Bool, true, ◌&&◌, ◌||◌, Option, none, some, List, [], ◌∷◌,
  ◌++◌, arith, if◌then◌else◌, ◌==◌, nat_eq, Bool-cases, inl, inr, length, or_else, ltb, any, drop,
  drop-append, drop-length, ◌⊎◌, Option-cases,
}
use mathlib.Core.Path.{subst}
use ipfs_embed.Common.Assoc.{get, get-remove, get-insert_self}
use ipfs_embed.Multiaddr.{PeerId, Multiaddr, multiaddr_eq, normalize_addr, without_peer_id}
use ipfs_embed.PeerInfo.{PeerInfo, push_failure, probed}
use ipfs_embed.PeerInfo.Failures.{addresses-push_failure}
use ipfs_embed.Dialing.{
  Dial, IntoAddressHandler, default_condition, handler_peer_id, DialError, any_sim_open,
  is_wrong_peer, failure_dial, failure_transport, TransportError,
}
use ipfs_embed.Events.{Env}
use ipfs_embed.AddressBook.{AddressBook, dial_to, own_handler}
use ipfs_embed.AddressBook.Failing.{
  peer_dial_failed, failed_addresses, redial_delay, is_probe_result, failed_own, own_dial_failed,
  inject_dial_failure,
}

-- The peer that a failure is about: that of the handler, or else that of the swarm.
abbrev pub failed_peer : Env → Option PeerId → IntoAddressHandler → Option PeerId
failed_peer env peer_id handler = or_else (handler_peer_id env.codec handler) peer_id

deferred-own :
    (env : Env) (peer : PeerId) (addr : Multiaddr) (retries : ℕ) (keep_alive : Bool)
    (error : DialError) (info : PeerInfo) (b : AddressBook)
    → let b' = own_dial_failed env peer addr retries keep_alive error info b in
      (b'.deferred ≡ (
        if any_sim_open error.kind && ltb 0 retries
        then b.deferred
          ++ (
            redial_delay (env.random 0),
            dial_to peer default_condition addr (own_handler addr (retries - 1) keep_alive),
          )
            ∷ []
        else b.deferred))
      × (b'.actions ≡ b.actions)
      × (get peer b'.peers ≡ some (failed_own env peer addr error info))
unfolding own_dial_failed
deferred-own env peer addr retries keep_alive error info b =
    let known = get-insert_self peer (failed_own env peer addr error info) b.peers in
    elim (Bool-cases (any_sim_open error.kind && ltb 0 retries)) [
      | inl t ↦ rw (t, if◌then◌else◌) (refl, refl, known)
      | inr f ↦ rw (f, if◌then◌else◌) (refl, refl, known)
    ]

-- The failure of our own dial of a known peer schedules one redial, of the same address after the
-- random `redial_delay` and with one redial fewer, if it looks like a simultaneous open and a redial
-- is left; otherwise it schedules nothing. Nothing is dialled at once, and the peer's record becomes
-- that of `failed_own`.
own_failure-redials :
    (env : Env) (peer : PeerId) (peer_id : Option PeerId) (addr : Multiaddr) (retries : ℕ)
    (keep_alive : Bool) (error : DialError) (b : AddressBook) (info : PeerInfo)
    → failed_peer env peer_id (own_handler addr retries keep_alive) ≡ some peer
    → get peer b.peers ≡ some info
    → let b' = inject_dial_failure env peer_id (own_handler addr retries keep_alive) error b in
      (b'.deferred ≡ (
        if any_sim_open error.kind && ltb 0 retries
        then b.deferred
          ++ (
            redial_delay (env.random 0),
            dial_to peer default_condition addr (own_handler addr (retries - 1) keep_alive),
          )
            ∷ []
        else b.deferred))
      × (b'.actions ≡ b.actions)
      × (get peer b'.peers ≡ some (failed_own env peer addr error info))
unfolding inject_dial_failure
own_failure-redials env peer peer_id addr retries keep_alive error b info h k =
    rw (h, inject_dial_failure)
      (rw (k, peer_dial_failed) (deferred-own env peer addr retries keep_alive error info b))

-- A failure of our own dial costs the dialled address and no other: always if another peer answered,
-- and otherwise if the failure is a probe result and the address was still to be probed.
pub addresses-failed_own :
    (env : Env) (peer : PeerId) (addr a : Multiaddr) (error : DialError) (info : PeerInfo)
    → get a (failed_own env peer addr error info).addresses ≡ (
        if addr == a
          && (is_wrong_peer error.kind
              || is_probe_result error.kind && probed (get a info.addresses))
        then none
        else get a info.addresses)
unfolding failed_own
addresses-failed_own env peer addr a error info =
    let f = failure_dial env.show_addr env.now (without_peer_id addr) error in
    let p = is_probe_result error.kind in
    let pushed = push_failure addr f p info in
    ground (
      arith,
      multiaddr_eq.beq_iff addr a,
      addresses-push_failure addr a f p info,
      get-remove addr a pushed.addresses,
    )

-- A failed dial of the swarm costs exactly those of the failed addresses, read with their peer id,
-- that were still to be probed.
pub addresses-failed_addresses :
    (env : Env) (peer : PeerId) (a : Multiaddr) (v : List (Multiaddr × TransportError))
    (info : PeerInfo)
    → get a (failed_addresses env peer v info).addresses ≡ (
        if any (λ e. normalize_addr env.codec e.0 peer == a) v && probed (get a info.addresses)
        then none
        else get a info.addresses)
unfolding failed_addresses
addresses-failed_addresses env peer a [] info = refl
addresses-failed_addresses env peer a ((addr, error) ∷ v) info =
    let f = failure_transport env.now (without_peer_id addr) error in
    let target = normalize_addr env.codec addr peer in
    ground (
      arith,
      addresses-push_failure target a f true info,
      addresses-failed_addresses env peer a v (push_failure target f true info),
    )

abbrev next_redial : (IntoAddressHandler → ℕ) → List (ℕ × Dial) → ℕ
next_redial chain [] = 0
next_redial chain ((delay, d) ∷ rest) = suc (chain d.handler)

-- Redials that fail one after another: each error meets the handler of the dial that was deferred
-- last. The count of the redials made.
pub redial_chain : Env → Option PeerId → List DialError → IntoAddressHandler → AddressBook → ℕ
redial_chain env peer_id [] handler b = 0
redial_chain env peer_id (error ∷ errors) handler b =
    let b' = inject_dial_failure env peer_id handler error b in
    next_redial (λ h. redial_chain env peer_id errors h b') (drop (length b.deferred) b'.deferred)

abbrev OneRedial : ℕ → Multiaddr → Bool → List (ℕ × Dial) → List (ℕ × Dial) → Type 0
OneRedial retries addr keep_alive old new =
    (new ≡ old)
    ⊎ ((delay : ℕ) × (d : Dial) × (0 < retries)
        × (d.handler ≡ own_handler addr (retries - 1) keep_alive)
        × (new ≡ old ++ (delay, d) ∷ []))

OneRedial-if :
    (c : Bool) (retries delay : ℕ) (peer : PeerId) (addr : Multiaddr) (keep_alive : Bool)
    (old new : List (ℕ × Dial))
    → new ≡ (
        if c && ltb 0 retries
        then old
          ++ (
            delay,
            dial_to peer default_condition addr (own_handler addr (retries - 1) keep_alive),
          )
            ∷ []
        else old)
    → OneRedial retries addr keep_alive old new
OneRedial-if c retries delay peer addr keep_alive old new h =
    elim (Bool-cases (c && ltb 0 retries)) [
      | inl t ↦ inr (
        delay,
        dial_to peer default_condition addr (own_handler addr (retries - 1) keep_alive),
        ground arith,
        refl,
        rw t at h,
      )
      | inr f ↦ inl (rw f at h)
    ]

-- The dial that a failure of our own defers, if any.
deferred_cases :
    (env : Env) (peer_id : Option PeerId) (addr : Multiaddr) (retries : ℕ) (keep_alive : Bool)
    (error : DialError) (b : AddressBook)
    → OneRedial retries addr keep_alive b.deferred
        (inject_dial_failure env peer_id (own_handler addr retries keep_alive) error b).deferred
unfolding inject_dial_failure
deferred_cases env peer_id addr retries keep_alive error b =
    elim (Option-cases (failed_peer env peer_id (own_handler addr retries keep_alive))) [
      | inl e ↦ inl (rw (e, inject_dial_failure))
      | inr (peer, e) ↦ elim (Option-cases (get peer b.peers)) [
        | inl k ↦ inl (rw (e, inject_dial_failure) (rw (k, peer_dial_failed)))
        | inr (info, k) ↦
            OneRedial-if _ retries _ peer addr keep_alive b.deferred _
              (own_failure-redials env peer peer_id addr retries keep_alive error b info e k).0
      ]
    ]

-- However many dials fail, and by whatever errors, a dial of our own with `retries` redials left is
-- redialled at most that often.
pub redial_chain-le :
    (env : Env) (peer_id : Option PeerId) (errors : List DialError) (addr : Multiaddr) (retries : ℕ)
    (keep_alive : Bool) (b : AddressBook)
    → redial_chain env peer_id errors (own_handler addr retries keep_alive) b ≤ retries
unfolding redial_chain
redial_chain-le env peer_id [] addr retries keep_alive b = omega arith
redial_chain-le env peer_id (error ∷ errors) addr retries keep_alive b =
    let b' = inject_dial_failure env peer_id (own_handler addr retries keep_alive) error b in
    let chain = λ (h : IntoAddressHandler). redial_chain env peer_id errors h b' in
    elim (deferred_cases env peer_id addr retries keep_alive error b) [
      | inl e ↦
          subst (λ l. next_redial chain (drop (length b.deferred) l) ≤ retries) (sym e)
            (rw (drop-length b.deferred) (omega arith))
      | inr (delay, d, left, h, e) ↦
          subst (λ l. next_redial chain (drop (length b.deferred) l) ≤ retries) (sym e)
            (rw (drop-append b.deferred ((delay, d) ∷ []), h)
              (omega (arith, redial_chain-le env peer_id errors addr (retries - 1) keep_alive b')))
    ]
