-- ===== src/Executor.antt =====
-- src/executor.rs: the runtime that spawns tasks, and the handles of tasks. async-global-executor and
-- tokio are libraries: what polling a task brings is an argument.
use ipfs_embed.Common.{
  Bool-cases, inl, inr, ℕ, ◌≡◌, refl, Bool, true, not, ◌&&◌, Option, none, some, arith,
  if◌then◌else◌,
}
use ipfs_embed.Service.Client.{Poll, ready, pending}
use ipfs_embed.Storage.{Answer, ok, failed, Error, detached}
use ipfs_embed.Network.{Received, received, dropped}

-- The features that the crate is built with.
pub record Features : Type 0 where
  pub tokio : Bool
  pub async_global : Bool

pub data Executor : Type 0 where
  tokio async_global : Executor

-- `Executor::new`; without a feature the function has no body to compile.
unfoldable pub new : Features → Executor
new features = if features.async_global then async_global else tokio

abbrev pub Task : Type 0
Task = ℕ

pub data JoinHandle : Type 0 where
  tokio : Task → JoinHandle
  async_global : Option Task → JoinHandle

-- `spawn` and `spawn_blocking`, by the task that the runtime makes.
unfoldable pub spawn : Executor → Task → JoinHandle
spawn Executor.async_global t = JoinHandle.async_global (some t)
spawn Executor.tokio t = JoinHandle.tokio t

-- What becomes of a handle's task.
pub data Fate : Type 0 where
  runs_on canceled : Task → Fate
  no_task : Fate

-- The drop of a handle: a task of tokio runs on, one of async-global-executor is canceled.
abbrev pub drop_handle : JoinHandle → Fate
drop_handle (JoinHandle.tokio t) = runs_on t
drop_handle (JoinHandle.async_global (some t)) = canceled t
drop_handle (JoinHandle.async_global none) = no_task

-- Under the feature `async_global` a task of that runtime is detached; else the handle is dropped.
unfoldable pub detach : Features → JoinHandle → Fate
detach features (JoinHandle.tokio t) = drop_handle (JoinHandle.tokio t)
detach features (JoinHandle.async_global none) = drop_handle (JoinHandle.async_global none)
detach features (JoinHandle.async_global (some t)) =
    if features.async_global then runs_on t else drop_handle (JoinHandle.async_global (some t))

-- A task of tokio is aborted where tokio is the only feature; every other handle is dropped.
unfoldable pub abort : Features → JoinHandle → Fate
abort features (JoinHandle.tokio t) =
    if features.tokio && not features.async_global
    then canceled t
    else drop_handle (JoinHandle.tokio t)
abort features (JoinHandle.async_global t) = drop_handle (JoinHandle.async_global t)

-- `poll`, by what the task's own `poll` brings: `dropped` is a task that panicked or was aborted. Tokio
-- makes an error of it; async-global-executor passes the panic on, which is `none`. A handle whose
-- task was taken answers an error.
unfoldable pub poll {ℓ} : {A : Type ℓ} → Poll (Received A) → JoinHandle → Option (Poll (Answer A))
poll (ready (received a)) (JoinHandle.tokio t) = some (ready (ok a))
poll (ready dropped) (JoinHandle.tokio t) = some (ready (failed Error.canceled))
poll pending (JoinHandle.tokio t) = some pending
poll p (JoinHandle.async_global none) = some (ready (failed detached))
poll (ready (received a)) (JoinHandle.async_global (some t)) = some (ready (ok a))
poll (ready dropped) (JoinHandle.async_global (some t)) = none
poll pending (JoinHandle.async_global (some t)) = some pending

-- With either feature alone, a task that `spawn` of the executor of `new` made runs on after `detach`
-- and is canceled by `abort`.
pub detach-abort :
    (features : Features) (t : Task)
    → features.tokio ≡ not features.async_global
    → (detach features (spawn (new features) t) ≡ runs_on t)
      × (abort features (spawn (new features) t) ≡ canceled t)
unfolding new spawn detach abort
detach-abort features t h = elim (Bool-cases features.async_global) [
  | inl e ↦ rw e (refl, refl)
  | inr e ↦ let k : features.tokio ≡ true = ground arith in rw (e, k) (refl, refl)
]
