-- ===== src/Xacto/Registry.antt =====
-- `xacto/src/client_registry.c`: the descriptors of the connected clients, their count and the
-- semaphore. What runs under the mutex is one step; `creg_unregister` tests `val` and raises the
-- semaphore after it has given up the mutex, so that other threads may run in between.
pub mod Count
use cse.Base.{
  ℕ, zero, suc, ◌+◌, ◌≡◌, Bool, true, false, Option, none, some, List, [], ◌∷◌, ◌==◌, if◌then◌else◌,
  set, get_or, replicate,
}
use cse.Base.Word.{◌+w◌, ◌-w◌}

-- FD_SETSIZE
abbrev pub fd_setsize : ℕ
fd_setsize = 1024

-- `struct client_registry`: one Bool for each descriptor, the count of `val` and of the semaphore.
pub record ClientRegistry : Type 0 where
  pub fds : List Bool
  pub sem : ℕ
  pub val : ℕ

unfoldable pub creg_init : ClientRegistry
creg_init = record { fds = replicate fd_setsize false; sem = 0; val = 0 }

unfoldable pub creg_register : ClientRegistry → ℕ → ClientRegistry
creg_register cr fd = record cr { val = cr.val +w 1; fds = set cr.fds fd true }

-- `creg_unregister` up to its unlock.
unfoldable pub creg_remove : ClientRegistry → ℕ → ClientRegistry
creg_remove cr fd = record cr { val = cr.val -w 1; fds = set cr.fds fd false }

-- Its test of `val` after the unlock.
unfoldable pub creg_test : ClientRegistry → Bool
creg_test cr = cr.val == 0

-- `V(&cr->sem)`
unfoldable pub creg_raise : ClientRegistry → ClientRegistry
creg_raise cr = record cr { sem = suc cr.sem }

-- A call with no other thread in between.
unfoldable pub creg_unregister : ClientRegistry → ℕ → ClientRegistry
creg_unregister cr fd = let cr1 = creg_remove cr fd in if creg_test cr1 then creg_raise cr1 else cr1

-- `P(&cr->sem)` for a value of the semaphore.
abbrev pub wait_on : ClientRegistry → ℕ → Option ClientRegistry
wait_on cr zero = none
wait_on cr (suc n) = some (record cr { sem = n })

-- none where the caller waits.
unfoldable pub creg_wait_for_empty : ClientRegistry → Option ClientRegistry
creg_wait_for_empty cr = wait_on cr cr.sem

-- The descriptors from i on that `creg_shutdown_all` shuts down for reading.
unfoldable pub shut_from : ℕ → List Bool → List ℕ
shut_from i [] = []
shut_from i (b ∷ bs) = let rest = shut_from (suc i) bs in if b then i ∷ rest else rest

unfoldable pub creg_shutdown_all : ClientRegistry → List ℕ
creg_shutdown_all cr = shut_from 0 cr.fds
