-- ===== src/Base/Semaphore.antt =====
-- What the transports rely on of semaphore.Weighted of golang.org/x/sync, used with weight one and
-- `TryAcquire` alone: the operations, the weight that is held and the limit, and how they change.
use Prim.Native.Nat.{ℕ, suc, ◌<◌}
use mathlib.Core.Path.{◌≡◌}
use mathlib.Core.Option.{Option, none, some}

pub record Semaphore (Sem : Type 0) : Type 0 where
  pub new_weighted : ℕ → Sem
  -- `none` is a refusal, which leaves the semaphore as it is.
  pub try_acquire : Sem → Option Sem
  pub release : Sem → Sem
  pub weight : Sem → ℕ
  pub limit : Sem → ℕ
  pub weight-new_weighted : (n : ℕ) → weight (new_weighted n) ≡ 0
  pub limit-new_weighted : (n : ℕ) → limit (new_weighted n) ≡ n
  pub acquired :
      (s t : Sem)
      → try_acquire s ≡ some t
      → (weight s < limit s) × (weight t ≡ suc (weight s)) × (limit t ≡ limit s)
  pub refused : (s : Sem) → try_acquire s ≡ none → weight s ≡ limit s
  pub released :
      (s : Sem)
      → 0 < weight s
      → (suc (weight (release s)) ≡ weight s) × (limit (release s) ≡ limit s)
