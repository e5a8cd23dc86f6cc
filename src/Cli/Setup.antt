-- ===== src/Cli/Setup.antt =====
-- The start of `run` in cli/src/main.rs: from the arguments to a node that listens.
use ipfs_embed.Common.{
  ℕ, suc, String, ◌≡◌, ◌≢◌, refl, not, false, Option, none, some, sym, List, [], ◌∷◌, ◌++◌, map,
  length, arith, ap, ◌∙◌,
}
use mathlib.Core.List.{append_assoc, append-nil}
use ipfs_embed.Multiaddr.{PeerCodec, Multiaddr, normalize_addr}
use ipfs_embed.Behaviour.{NetworkConfig, Channel}
use ipfs_embed.Service.{NetworkCommand}
use ipfs_embed.Storage
use ipfs_embed.Storage.{BlockStore, StorageConfig}
use ipfs_embed.Network.{Sent, sent, cmd, tell, handle_send_result}
use ipfs_embed.Network.Sending
use ipfs_embed.Ipfs.{Ipfs}
use ipfs_embed.Ipfs.Config.{new_network}
use ipfs_embed.Ipfs.Delegates
use ipfs_embed.Cli.Words.{Text, codes}
use ipfs_embed.Cli.Arguments.{Config}

-- Kademlia is off, and mDNS is on by a flag.
unfoldable pub network_config : Config → NetworkConfig
unfolding new_network
network_config config = record new_network {
  port_reuse = not config.disable_port_reuse;
  protocols = record new_network.protocols { mdns = config.enable_mdns; kad = false };
}

-- The store, by the text of its path.
unfoldable pub storage_config : (Text → String) → Config → StorageConfig
unfolding Storage.new
storage_config path config =
    Storage.new (elim config.path [ none ↦ none | some p ↦ some (path p) ]) none 10 10_000_000_000

-- The agent's name, by the decimal text of a number.
unfoldable pub agent_version : (ℕ → Text) → Config → Text
agent_version decimal config = elim config.node_name [
  | none ↦ codes "node" ++ decimal config.keypair
  | some name ↦ name
]

module _ (S : BlockStore) (codec : PeerCodec) (answer : ℕ → Sent) (channel : ℕ → Channel) where
  -- The loops over the addresses. The n-th call is given the n-th answer and channel.
  unfoldable pub listen_all : ℕ → List Multiaddr → Ipfs S → Ipfs S
  listen_all n [] i = i
  listen_all n (addr ∷ addrs) i =
      listen_all (suc n) addrs (Delegates.listen_on S (answer n) (channel n) addr i)

  unfoldable pub add_all_external : ℕ → List Multiaddr → Ipfs S → Ipfs S
  add_all_external n [] i = i
  add_all_external n (addr ∷ addrs) i =
      add_all_external (suc n) addrs (Delegates.add_external_address S codec (answer n) addr i)

  abbrev pub unless_bootstrap : List Multiaddr → Ipfs S → Option (Ipfs S)
  unless_bootstrap [] i = some i
  unless_bootstrap (addr ∷ addrs) i = none

  -- From the new node to the loops; `none` is the panic of `unimplemented!()`.
  unfoldable pub started : Config → Ipfs S → Option (Ipfs S)
  unfolding listen_all add_all_external
  started config i =
      let ready =
        add_all_external (length config.listen_on) config.external
          (listen_all 0 config.listen_on i) in
      unless_bootstrap config.bootstrap ready

  abbrev pub listens : ℕ → List Multiaddr → List NetworkCommand
  listens n [] = []
  listens n (addr ∷ addrs) = NetworkCommand.listen_on addr (channel n) ∷ listens (suc n) addrs

  abbrev pub externals : Ipfs S → List Multiaddr → List NetworkCommand
  externals i addrs =
      map
        (λ addr. NetworkCommand.add_external_address (normalize_addr codec addr i.network.peer_id))
        addrs

  abbrev pub with_commands : Ipfs S → List NetworkCommand → Ipfs S
  with_commands i cs = record i {
    network = record i.network { commands = i.network.commands ++ cs };
  }

  with_commands-nil : (i : Ipfs S) → i ≡ with_commands i []
  with_commands-nil i = sym (
      ap (λ cs. record i { network = record i.network { commands = cs } })
        (append-nil i.network.commands))

  with_commands-append :
      (i : Ipfs S) (xs ys : List NetworkCommand)
      → with_commands (with_commands i xs) ys ≡ with_commands i (xs ++ ys)
  with_commands-append i xs ys =
      ap (λ cs. record i { network = record i.network { commands = cs } })
        (append_assoc i.network.commands xs ys)

  listen_all_lem :
      ((n : ℕ) → answer n ≡ sent)
      → (n : ℕ) (addrs : List Multiaddr) (i : Ipfs S)
      → listen_all n addrs i ≡ with_commands i (listens n addrs)
  unfolding listen_all Delegates.listen_on Sending.listen_on cmd handle_send_result
  listen_all_lem h n [] i = with_commands-nil i
  listen_all_lem h n (addr ∷ addrs) i =
      let j = Delegates.listen_on S (answer n) (channel n) addr i in
      let c = NetworkCommand.listen_on addr (channel n) ∷ [] in
      let step : j ≡ with_commands i c = rw (h n) refl in
      listen_all_lem h (suc n) addrs j
      ∙ (ap (λ k. with_commands k (listens (suc n) addrs)) step
          ∙ with_commands-append i c (listens (suc n) addrs))

  add_all_external_lem :
      ((n : ℕ) → answer n ≡ sent)
      → (n : ℕ) (addrs : List Multiaddr) (i : Ipfs S)
      → add_all_external n addrs i ≡ with_commands i (externals i addrs)
  unfolding add_all_external Delegates.add_external_address Sending.add_external_address tell cmd
      handle_send_result
  add_all_external_lem h n [] i = with_commands-nil i
  add_all_external_lem h n (addr ∷ addrs) i =
      let j = Delegates.add_external_address S codec (answer n) addr i in
      let c = externals i (addr ∷ []) in
      let step : j ≡ with_commands i c = rw (h n) refl in
      add_all_external_lem h (suc n) addrs j
      ∙ (ap (λ k. with_commands k (externals k addrs)) step
          ∙ with_commands-append i c (externals i addrs))

  ready_lem :
      ((n : ℕ) → answer n ≡ sent)
      → (config : Config) (i : Ipfs S)
      → add_all_external (length config.listen_on) config.external (listen_all 0 config.listen_on i)
        ≡ with_commands i (listens 0 config.listen_on ++ externals i config.external)
  ready_lem h config i =
      let j = listen_all 0 config.listen_on i in
      add_all_external_lem h (length config.listen_on) config.external j
      ∙ (ap (λ k. with_commands k (externals k config.external))
            (listen_all_lem h 0 config.listen_on i)
          ∙ with_commands-append i (listens 0 config.listen_on) (externals i config.external))

  unless_bootstrap_lem :
      (bs : List Multiaddr) (i j : Ipfs S)
      → i ≡ j
      → (bs ≡ [] → unless_bootstrap bs i ≡ some j) × (bs ≢ [] → unless_bootstrap bs i ≡ none)
  unless_bootstrap_lem [] i j e = (λ h. ap some e, λ h. absurd (h refl))
  unless_bootstrap_lem (b ∷ bs) i j e = (λ h. ground arith, λ h. refl)

  -- Where every command can be sent, a program without bootstrap addresses asks the loop to listen on
  -- its addresses in turn, and then adds the external ones, each with the node's own peer id at its
  -- end where it has none; it changes nothing else. With a bootstrap address it panics.
  pub started_lem :
      ((n : ℕ) → answer n ≡ sent)
      → (config : Config) (i : Ipfs S)
      → (config.bootstrap ≡ []
          → started config i
            ≡ some (with_commands i (listens 0 config.listen_on ++ externals i config.external)))
        × (config.bootstrap ≢ [] → started config i ≡ none)
  unfolding started
  started_lem h config i = unless_bootstrap_lem config.bootstrap _ _ (ready_lem h config i)
