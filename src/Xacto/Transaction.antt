-- ===== src/Xacto/Transaction.antt =====
-- `xacto/src/transaction.c`: transactions on a heap. Each function is run without another thread in
-- between; where it waits for one, it is `blocked`. An access to a transaction that was freed and a
-- call of `abort` are a `fault`. Memory is taken to be there, and mutexes and semaphores work.
pub mod Commit
pub mod Dependency
use cse.Base.{
  ℕ, zero, suc, ◌+◌, ◌-◌, ◌%◌, ◌^◌, Bool, true, false, not, ◌&&◌, ◌||◌, Option, none, some, List,
  [], ◌∷◌, ◌++◌, ◌==◌, if◌then◌else◌, get_or, set, length,
}

-- `TRANS_STATUS`
pub data TransStatus : Type 0 where
  trans_pending : TransStatus
  trans_committed : TransStatus
  trans_aborted : TransStatus

abbrev pub is_pending : TransStatus → Bool
is_pending trans_pending = true
is_pending trans_committed = false
is_pending trans_aborted = false

abbrev pub is_committed : TransStatus → Bool
is_committed trans_pending = false
is_committed trans_committed = true
is_committed trans_aborted = false

abbrev pub is_aborted : TransStatus → Bool
is_aborted trans_pending = false
is_aborted trans_committed = false
is_aborted trans_aborted = true

-- `TRANSACTION`; a dependency is the address of its transaction, and `sem` is the value of the
-- semaphore.
pub record Transaction : Type 0 where
  pub id : ℕ
  pub refcnt : ℕ
  pub status : TransStatus
  pub depends : List ℕ
  pub waitcnt : ℕ
  pub sem : ℕ

-- `unique_id`; the transactions by address, none where one was freed; and `trans_list`, as the
-- addresses in it.
pub record Manager : Type 0 where
  pub unique_id : ℕ
  pub heap : List (Option Transaction)
  pub listed : List ℕ

pub data Outcome {ℓ} (A : Type ℓ) : Type ℓ where
  done : A → Outcome A
  blocked : Outcome A
  fault : Outcome A

abbrev pub and_then {ℓ κ} : {A : Type ℓ} {B : Type κ} → Outcome A → (A → Outcome B) → Outcome B
and_then (done x) f = f x
and_then blocked f = blocked
and_then fault f = fault

-- `tp->`, and a change of a transaction in place.
abbrev pub deref : Option Transaction → Outcome Transaction
deref none = fault
deref (some t) = done t

unfoldable pub at : Manager → ℕ → Outcome Transaction
at mg tp = deref (get_or mg.heap tp none)

abbrev pub store_at : Manager → ℕ → Transaction → Manager
store_at mg tp t = record mg { heap = set mg.heap tp (some t) }

unfoldable pub trans_init : Manager
trans_init = record { unique_id = 0; heap = []; listed = [] }

-- The address of the new transaction, with its reference; an unsigned int wraps.
unfoldable pub trans_create : Manager → ℕ × Manager
trans_create mg =
    let t : Transaction = record {
      id = mg.unique_id;
      refcnt = 1;
      status = trans_pending;
      depends = [];
      waitcnt = 0;
      sem = 0;
    } in
    (
      length mg.heap,
      record {
        unique_id = (mg.unique_id + 1) % 2 ^ 32;
        heap = mg.heap ++ (some t ∷ []);
        listed = mg.listed ++ (length mg.heap ∷ []);
      },
    )

unfoldable pub trans_ref : Manager → ℕ → Outcome Manager
trans_ref mg tp =
    and_then (at mg tp) (λ t. done (store_at mg tp (record t { refcnt = (t.refcnt + 1) % 2 ^ 32 })))

-- A list without an address.
unfoldable pub unlink : ℕ → List ℕ → List ℕ
unlink tp [] = []
unlink tp (x ∷ xs) = let rest = unlink tp xs in if x == tp then rest else x ∷ rest

unfoldable pub trans_unref : Manager → ℕ → Outcome Manager
trans_unref mg tp = and_then (at mg tp) (λ t.
    let refcnt = (t.refcnt + (2 ^ 32 - 1)) % 2 ^ 32 in
    if refcnt == 0
    then done (record mg { heap = set mg.heap tp none; listed = unlink tp mg.listed })
    else done (store_at mg tp (record t { refcnt = refcnt })))

-- The loop of `trans_add_dependency`, which stops before the last dependency.
unfoldable pub found_before_last : Manager → ℕ → List ℕ → Outcome Bool
found_before_last mg id [] = done false
found_before_last mg id (d ∷ []) = done false
found_before_last mg id (d ∷ e ∷ ds) =
    let rest = found_before_last mg id (e ∷ ds) in
    and_then (at mg d) (λ t. if t.id == id then done true else rest)

unfoldable pub trans_add_dependency : Manager → ℕ → ℕ → Outcome Manager
trans_add_dependency mg tp dtp = and_then (at mg dtp) (λ dt. and_then (at mg tp) (λ t.
    and_then (found_before_last mg dt.id t.depends) (λ found.
      if found
      then done mg
      else trans_ref (store_at mg tp (record t { depends = t.depends ++ (dtp ∷ []) })) dtp)))

-- The first loop of `trans_commit`: `P` waits where the semaphore is 0.
unfoldable pub wait_for : Manager → List ℕ → Outcome Manager
wait_for mg [] = done mg
wait_for mg (d ∷ ds) = and_then (at mg d) (λ t.
    let taken = record t { waitcnt = t.waitcnt + 1; sem = t.sem - 1 } in
    let waited = wait_for (store_at mg d taken) ds in
    let skipped = wait_for mg ds in
    if is_pending t.status then if t.sem == 0 then blocked else waited else skipped)

-- The second loop: whether a dependency has aborted.
unfoldable pub any_aborted : Manager → List ℕ → Outcome Bool
any_aborted mg [] = done false
any_aborted mg (d ∷ ds) =
    let rest = any_aborted mg ds in
    and_then (at mg d) (λ t. if is_aborted t.status then done true else rest)

-- `V` once for each waiter.
abbrev pub signal : Transaction → Transaction
signal t = record t { sem = t.sem + t.waitcnt }

unfoldable pub trans_abort : Manager → ℕ → Outcome (TransStatus × Manager)
trans_abort mg tp = and_then (at mg tp) (λ t.
    if is_committed t.status
    then fault
    else and_then (trans_unref (store_at mg tp (signal (record t { status = trans_aborted }))) tp)
        (λ mg'. done (trans_aborted, mg')))

unfoldable pub trans_commit : Manager → ℕ → Outcome (TransStatus × Manager)
trans_commit mg tp = and_then (at mg tp) (λ t. and_then (wait_for mg t.depends) (λ mg1.
    and_then (any_aborted mg1 t.depends) (λ aborted.
      if aborted
      then trans_abort mg1 tp
      else and_then (at mg1 tp) (λ t1.
        and_then
          (trans_unref (store_at mg1 tp (record (signal t1) { status = trans_committed })) tp)
          (λ mg'. done (trans_committed, mg'))))))

unfoldable pub trans_get_status : Manager → ℕ → Outcome TransStatus
trans_get_status mg tp = and_then (at mg tp) (λ t. done t.status)
