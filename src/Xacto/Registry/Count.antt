-- ===== src/Xacto/Registry/Count.antt =====
-- The count and the semaphore of a registry over the interleavings of the threads that register a
-- client once, unregister a registered client, and wait.
use cse.Base.{
  ℕ, zero, suc, ◌+◌, ◌≤◌, ◌<◌, ◌≡◌, ◌≢◌, refl, Bool, true, false, some, List, [], ◌∷◌, get_or,
  if◌then◌else◌, replicate, length, ◌⊎◌,
}
use cse.Xacto.Registry.{
  ClientRegistry, creg_init, creg_register, creg_remove, creg_test, creg_raise, creg_wait_for_empty,
}

-- `FD_ISSET`, with a descriptor out of range as d.
abbrev pub is_set : ClientRegistry → ℕ → Bool → Bool
is_set cr fd d = get_or cr.fds fd d

-- The registry and the threads at work on it: those before the test of `creg_unregister`, those
-- between a test that held and the `V`, the clients that have left so far, and the calls of
-- `creg_wait_for_empty` that have returned.
pub record Threads : Type 0 where
  pub registry : ClientRegistry
  pub testing : ℕ
  pub raising : ℕ
  pub left : ℕ
  pub waited : ℕ

unfoldable pub no_threads : Threads
no_threads = record { registry = creg_init; testing = 0; raising = 0; left = 0; waited = 0 }

-- One step of one thread.
pub data Step : Threads → Threads → Type 0 where
  connect :
      (t : Threads) (fd : ℕ)
      → is_set t.registry fd true ≡ false
      → Step t (record t { registry = creg_register t.registry fd })
  remove :
      (t : Threads) (fd : ℕ)
      → is_set t.registry fd false ≡ true
      → Step t (record t {
        registry = creg_remove t.registry fd;
        testing = suc t.testing;
        left = suc t.left;
      })
  test :
      (t : Threads) (n : ℕ)
      → t.testing ≡ suc n
      → Step t (record t {
        testing = n;
        raising = if creg_test t.registry then suc t.raising else t.raising;
      })
  raise :
      (t : Threads) (n : ℕ)
      → t.raising ≡ suc n
      → Step t (record t { raising = n; registry = creg_raise t.registry })
  wait :
      (t : Threads) (cr : ClientRegistry)
      → creg_wait_for_empty t.registry ≡ some cr
      → Step t (record t { registry = cr; waited = suc t.waited })

-- What the steps of threads reach, in any order.
pub data Reachable : Threads → Type 0 where
  start : Reachable no_threads
  step : (t u : Threads) → Reachable t → Step t u → Reachable u

abbrev pub connected : List Bool → ℕ
connected [] = 0
connected (true ∷ bs) = suc (connected bs)
connected (false ∷ bs) = connected bs

connected-replicate : (n : ℕ) → connected (replicate n false) ≡ 0
connected-replicate zero = refl
connected-replicate (suc n) = connected-replicate n

-- The signals that were given or that a thread at work may still give.
abbrev pub signals : Threads → ℕ
signals t = t.testing + t.raising + t.registry.sem + t.waited

record IsCounted (t : Threads) : Type 0 where
  size : length t.registry.fds ≡ 1024
  count : t.registry.val ≡ connected t.registry.fds
  few : signals t ≤ t.left
  woken : (t.left ≡ 0) ⊎ (connected t.registry.fds ≢ 0) ⊎ (0 < signals t)

-- What a wait takes from the semaphore.
record Waits (cr cr' : ClientRegistry) : Type 0 where
  fds : cr'.fds ≡ cr.fds
  val : cr'.val ≡ cr.val
  sem : suc cr'.sem ≡ cr.sem
