-- ===== src/Locks.antt =====
-- concurrency/workspace_locks.py: `_AsyncRWLock`, a writer-preferring lock on one condition variable.
-- Coroutines are numbered. Those that wait on the condition are asleep until `notify_all`, and then
-- compete for its lock in any order.
pub mod Exclusion
pub mod Wakeups
pub mod Tests
use doppel_agent.Prelude.{
  ℕ, zero, suc, ◌+◌, ◌-◌, Bool, true, false, not, ◌&&◌, ◌||◌, Option, none, some, List, [], ◌∷◌,
  ◌++◌, ◌==◌, if◌then◌else◌,
}

-- What a coroutine wants of the lock.
pub data Kind : Type 0 where
  reader writer : Kind

-- `awake` are the waiters that a notification has woken and that have not run since.
pub record Lock : Type 0 where
  pub readers : ℕ
  pub has_writer : Bool
  pub waiting_writers : ℕ
  pub asleep : List (ℕ × Kind)
  pub awake : List (ℕ × Kind)

-- `__init__`
abbrev pub new_lock : Lock
new_lock = record { readers = 0; has_writer = false; waiting_writers = 0; asleep = []; awake = [] }

-- the predicates of the two `wait_for`s
abbrev pub may_read : Lock → Bool
may_read l = not l.has_writer && (l.waiting_writers == 0)

abbrev pub may_write : Lock → Bool
may_write l = not l.has_writer && (l.readers == 0)

-- `notify_all`
abbrev pub notify_all : Lock → Lock
notify_all l = record l { asleep = []; awake = l.awake ++ l.asleep }

abbrev sleep : ℕ → Kind → Lock → Lock
sleep n kind l = record l { asleep = l.asleep ++ ((n, kind) ∷ []) }

-- one test of a reader's predicate: the lock is taken, or the reader sleeps
abbrev pub try_read : ℕ → Lock → Lock
try_read n l = if may_read l then record l { readers = l.readers + 1 } else sleep n reader l

-- one test of a writer's; it stops to wait when it has the lock
abbrev pub try_write : ℕ → Lock → Lock
try_write n l =
    if may_write l
    then record l { has_writer = true; waiting_writers = l.waiting_writers - 1 }
    else sleep n writer l

-- `acquire_read` up to its first suspension or its return
unfoldable pub acquire_read : ℕ → Lock → Lock
acquire_read n l = try_read n l

-- `acquire_write`
unfoldable pub acquire_write : ℕ → Lock → Lock
acquire_write n l = try_write n (record l { waiting_writers = l.waiting_writers + 1 })

-- `release_read`
unfoldable pub release_read : Lock → Lock
release_read l = notify_all (record l { readers = l.readers - 1 })

-- `release_write`
unfoldable pub release_write : Lock → Lock
release_write l = notify_all (record l { has_writer = false })

-- A woken waiter tests its predicate again.
unfoldable pub resume : ℕ → Kind → Lock → Lock
resume n reader l = try_read n l
resume n writer l = try_write n l

-- A cancelled waiter leaves; the `finally` of a writer counts it out, and notifies nobody.
unfoldable pub cancel_wait : Kind → Lock → Lock
cancel_wait reader l = l
cancel_wait writer l = record l { waiting_writers = l.waiting_writers - 1 }
