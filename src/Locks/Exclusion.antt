-- ===== src/Locks/Exclusion.antt =====
-- Interleavings of the coroutines that use one lock.
use doppel_agent.Prelude.{
  ℕ, suc, ◌+◌, ◌-◌, ◌≤◌, ◌≡◌, refl, sym, ap, Bool, true, false, List, [], ◌∷◌, ◌++◌, arith,
}
use mathlib.Core.Path.{subst}
use doppel_agent.Locks.{
  Kind, reader, writer, Lock, new_lock, notify_all, try_read, try_write, acquire_read,
  acquire_write, release_read, release_write, resume, cancel_wait,
}

-- The coroutines' steps; those of the kinds in `cancellable` may be cancelled while they wait. Only a
-- holder releases.
pub data Step (cancellable : Kind → Bool) (l : Lock) : Lock → Type 0 where
  reads : {m : Lock} (n : ℕ) → m ≡ acquire_read n l → Step cancellable l m
  writes : {m : Lock} (n : ℕ) → m ≡ acquire_write n l → Step cancellable l m
  read_ends : {m : Lock} → 1 ≤ l.readers → m ≡ release_read l → Step cancellable l m
  write_ends : {m : Lock} → l.has_writer ≡ true → m ≡ release_write l → Step cancellable l m
  resumes :
      {m : Lock} (n : ℕ) (kind : Kind) (xs ys : List (ℕ × Kind))
      → l.awake ≡ xs ++ ((n, kind) ∷ ys)
      → m ≡ resume n kind (record l { awake = xs ++ ys })
      → Step cancellable l m
  sleeper_cancelled :
      {m : Lock} (n : ℕ) (kind : Kind) (xs ys : List (ℕ × Kind))
      → cancellable kind ≡ true
      → l.asleep ≡ xs ++ ((n, kind) ∷ ys)
      → m ≡ cancel_wait kind (record l { asleep = xs ++ ys })
      → Step cancellable l m
  waker_cancelled :
      {m : Lock} (n : ℕ) (kind : Kind) (xs ys : List (ℕ × Kind))
      → cancellable kind ≡ true
      → l.awake ≡ xs ++ ((n, kind) ∷ ys)
      → m ≡ cancel_wait kind (record l { awake = xs ++ ys })
      → Step cancellable l m

pub data Reach (cancellable : Kind → Bool) : Lock → Type 0 where
  here : Reach cancellable new_lock
  next : {l m : Lock} → Reach cancellable l → Step cancellable l m → Reach cancellable m

abbrev weight : Kind → ℕ
weight reader = 0
weight writer = 1

-- how many of the waiters are writers
unfoldable pub writers : List (ℕ × Kind) → ℕ
writers [] = 0
writers ((n, kind) ∷ ws) = weight kind + writers ws

writers-append : (xs ys : List (ℕ × Kind)) → writers (xs ++ ys) ≡ writers xs + writers ys
unfolding writers
writers-append [] ys = omega arith
writers-append ((n, kind) ∷ xs) ys = omega (arith, writers-append xs ys)

pub writers-split :
    (xs ys : List (ℕ × Kind)) (n : ℕ) (kind : Kind)
    → writers (xs ++ ((n, kind) ∷ ys)) ≡ weight kind + writers (xs ++ ys)
unfolding writers
writers-split [] ys n kind = refl
writers-split ((m, k) ∷ xs) ys n kind = omega (arith, writers-split xs ys n kind)

pub record IsExclusive (l : Lock) : Type 0 where
  pub exclusive : l.has_writer ≡ true → l.readers ≡ 0
  pub counted : l.waiting_writers ≡ writers l.asleep + writers l.awake

try_read-IsExclusive : (n : ℕ) (l : Lock) → IsExclusive l → IsExclusive (try_read n l)
unfolding writers
try_read-IsExclusive n l h = ground (arith, h, writers-append l.asleep ((n, reader) ∷ []))

-- a writer that is counted, and stands in no list
try_write-IsExclusive :
    (n : ℕ) (l : Lock)
    → (l.has_writer ≡ true → l.readers ≡ 0)
    → l.waiting_writers ≡ suc (writers l.asleep + writers l.awake)
    → IsExclusive (try_write n l)
unfolding writers
try_write-IsExclusive n l h k = ground (arith, h, k, writers-append l.asleep ((n, writer) ∷ []))

notify_all-IsExclusive : (l : Lock) → IsExclusive l → IsExclusive (notify_all l)
unfolding writers
notify_all-IsExclusive l h = ground (arith, h, writers-append l.awake l.asleep)

resume-IsExclusive :
    (n : ℕ) (kind : Kind) (xs ys : List (ℕ × Kind)) (l : Lock)
    → l.awake ≡ xs ++ ((n, kind) ∷ ys)
    → IsExclusive l
    → IsExclusive (resume n kind (record l { awake = xs ++ ys }))
unfolding resume
resume-IsExclusive n reader xs ys l e h =
    try_read-IsExclusive n (record l { awake = xs ++ ys })
      (record {
        exclusive = h.exclusive;
        counted = omega (arith, h.counted, ap writers e, writers-split xs ys n reader);
      })
resume-IsExclusive n writer xs ys l e h =
    try_write-IsExclusive n (record l { awake = xs ++ ys }) h.exclusive
      (omega (arith, h.counted, ap writers e, writers-split xs ys n writer))

cancel_wait-IsExclusive :
    (kind : Kind) (l : Lock)
    → (l.has_writer ≡ true → l.readers ≡ 0)
    → l.waiting_writers ≡ weight kind + (writers l.asleep + writers l.awake)
    → IsExclusive (cancel_wait kind l)
unfolding cancel_wait
cancel_wait-IsExclusive reader l h k = record { exclusive = h; counted = omega (arith, k) }
cancel_wait-IsExclusive writer l h k = record { exclusive = h; counted = omega (arith, k) }

Step-IsExclusive : {c : Kind → Bool} {l m : Lock} → Step c l m → IsExclusive l → IsExclusive m
unfolding acquire_read acquire_write release_read release_write cancel_wait
Step-IsExclusive (reads n e) h = subst IsExclusive (sym e) (try_read-IsExclusive n _ h)
Step-IsExclusive {l = l} (writes n e) h = subst IsExclusive (sym e) (
    try_write-IsExclusive n (record l { waiting_writers = l.waiting_writers + 1 }) h.exclusive
      (omega (arith, h.counted)))
Step-IsExclusive {l = l} (read_ends held e) h = subst IsExclusive (sym e) (
    notify_all-IsExclusive (record l { readers = l.readers - 1 })
      (record { exclusive = λ w. omega (arith, h.exclusive w); counted = h.counted }))
Step-IsExclusive {l = l} (write_ends w e) h = subst IsExclusive (sym e) (
    notify_all-IsExclusive (record l { has_writer = false })
      (record { exclusive = λ x. absurd (ground (arith, x)); counted = h.counted }))
Step-IsExclusive (resumes n kind xs ys e f) h =
    subst IsExclusive (sym f) (resume-IsExclusive n kind xs ys _ e h)
Step-IsExclusive (sleeper_cancelled n kind xs ys c e f) h = subst IsExclusive (sym f) (
    cancel_wait-IsExclusive kind _ h.exclusive
      (omega (arith, h.counted, ap writers e, writers-split xs ys n kind)))
Step-IsExclusive (waker_cancelled n kind xs ys c e f) h = subst IsExclusive (sym f) (
    cancel_wait-IsExclusive kind _ h.exclusive
      (omega (arith, h.counted, ap writers e, writers-split xs ys n kind)))

new_lock-IsExclusive : IsExclusive new_lock
unfolding writers
new_lock-IsExclusive = record { exclusive = λ h. refl; counted = refl }

-- In any interleaving, cancellations included, the lock has no reader while it has a writer, and the
-- count of waiting writers is that of the writers among the waiters.
pub Reach-IsExclusive : {c : Kind → Bool} (l : Lock) → Reach c l → IsExclusive l
Reach-IsExclusive l here = new_lock-IsExclusive
Reach-IsExclusive l (next r step) = Step-IsExclusive step (Reach-IsExclusive _ r)
