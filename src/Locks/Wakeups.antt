-- ===== src/Locks/Wakeups.antt =====
-- Whether a sleeping waiter will be woken. A waiter sleeps while the lock is held, or behind a writer
-- that has been woken and is about to take it.
use doppel_agent.Prelude.{
  ℕ, ◌+◌, ◌-◌, ◌≡◌, refl, sym, ap, ◌∙◌, Bool, true, false, not, ◌||◌, List, [], ◌∷◌, ◌++◌, ◌==◌,
  arith,
}
use mathlib.Core.Path.{subst}
use doppel_agent.Locks.{
  Kind, reader, writer, Lock, new_lock, notify_all, try_read, try_write, acquire_read,
  acquire_write, release_read, release_write, resume, cancel_wait,
}
use doppel_agent.Locks.Exclusion.{
  Step, reads, writes, read_ends, write_ends, resumes, sleeper_cancelled, waker_cancelled, Reach,
  here, next, writers, writers-split, Reach-IsExclusive,
}

-- only readers are cancelled
abbrev pub only_readers : Kind → Bool
only_readers reader = true
only_readers writer = false

abbrev pub is_empty : List (ℕ × Kind) → Bool
is_empty [] = true
is_empty (w ∷ ws) = false

-- whether somebody holds the lock, or a woken writer is about to test for it
abbrev pub is_held : Lock → Bool
is_held l = l.has_writer || not (l.readers == 0) || not (writers l.awake == 0)

unfoldable pub IsAwaited : Lock → Type 0
IsAwaited l = is_empty l.asleep ≡ false → is_held l ≡ true

append_snoc-is_empty : (xs ys : List (ℕ × Kind)) (w : ℕ × Kind) → is_empty (xs ++ (w ∷ ys)) ≡ false
append_snoc-is_empty [] ys w = refl
append_snoc-is_empty (x ∷ xs) ys w = refl

asleep_none : (ws : List (ℕ × Kind)) → is_empty ws ≡ true → writers ws ≡ 0
unfolding writers
asleep_none [] h = refl
asleep_none (w ∷ ws) h = absurd (ground (arith, h))

try_read-IsAwaited :
    (n : ℕ) (l : Lock)
    → l.waiting_writers ≡ writers l.asleep + writers l.awake
    → IsAwaited l
    → IsAwaited (try_read n l)
unfolding IsAwaited
try_read-IsAwaited n l c h = ground (arith, c, h, asleep_none l.asleep)

try_write-IsAwaited : (n : ℕ) (l : Lock) → IsAwaited (try_write n l)
unfolding IsAwaited
try_write-IsAwaited n l = ground arith

released-IsAwaited : (l : Lock) → IsAwaited (notify_all l)
unfolding IsAwaited
released-IsAwaited l = λ h. absurd (ground (arith, h))

resume-IsAwaited :
    (n : ℕ) (kind : Kind) (xs ys : List (ℕ × Kind)) (l : Lock)
    → l.awake ≡ xs ++ ((n, kind) ∷ ys)
    → l.waiting_writers ≡ writers l.asleep + writers l.awake
    → IsAwaited l
    → IsAwaited (resume n kind (record l { awake = xs ++ ys }))
unfolding resume IsAwaited
resume-IsAwaited n writer xs ys l e c h = try_write-IsAwaited n (record l { awake = xs ++ ys })
resume-IsAwaited n reader xs ys l e c h =
    try_read-IsAwaited n (record l { awake = xs ++ ys })
      (omega (arith, c, ap writers e, writers-split xs ys n reader))
      (λ k. ground (arith, h k, ap writers e, writers-split xs ys n reader))

acquire_read-IsAwaited :
    (n : ℕ) (l : Lock)
    → l.waiting_writers ≡ writers l.asleep + writers l.awake
    → IsAwaited l
    → IsAwaited (acquire_read n l)
unfolding acquire_read
acquire_read-IsAwaited n l c h = try_read-IsAwaited n l c h

acquire_write-IsAwaited : (n : ℕ) (l : Lock) → IsAwaited (acquire_write n l)
unfolding acquire_write
acquire_write-IsAwaited n l =
    try_write-IsAwaited n (record l { waiting_writers = l.waiting_writers + 1 })

release_read-IsAwaited : (l : Lock) → IsAwaited (release_read l)
unfolding release_read
release_read-IsAwaited l = released-IsAwaited (record l { readers = l.readers - 1 })

release_write-IsAwaited : (l : Lock) → IsAwaited (release_write l)
unfolding release_write
release_write-IsAwaited l = released-IsAwaited (record l { has_writer = false })

cancel_wait-IsAwaited :
    (kind : Kind) (l : Lock)
    → only_readers kind ≡ true
    → IsAwaited l
    → IsAwaited (cancel_wait kind l)
unfolding cancel_wait
cancel_wait-IsAwaited reader l c h = h
cancel_wait-IsAwaited writer l c h = absurd (ground (arith, c))

fewer_asleep :
    (n : ℕ) (kind : Kind) (xs ys : List (ℕ × Kind)) (l : Lock)
    → l.asleep ≡ xs ++ ((n, kind) ∷ ys)
    → IsAwaited l
    → IsAwaited (record l { asleep = xs ++ ys })
unfolding IsAwaited
fewer_asleep n kind xs ys l e h = λ k. h (ap is_empty e ∙ append_snoc-is_empty xs ys (n, kind))

fewer_awake :
    (n : ℕ) (kind : Kind) (xs ys : List (ℕ × Kind)) (l : Lock)
    → only_readers kind ≡ true
    → l.awake ≡ xs ++ ((n, kind) ∷ ys)
    → IsAwaited l
    → IsAwaited (record l { awake = xs ++ ys })
unfolding IsAwaited
fewer_awake n writer xs ys l c e h = absurd (ground (arith, c))
fewer_awake n reader xs ys l c e h =
    λ k. ground (arith, h k, ap writers e, writers-split xs ys n reader)

Step-IsAwaited :
    {l m : Lock}
    → Step only_readers l m
    → l.waiting_writers ≡ writers l.asleep + writers l.awake
    → IsAwaited l
    → IsAwaited m
Step-IsAwaited {l = l} (reads n e) c h = subst IsAwaited (sym e) (acquire_read-IsAwaited n l c h)
Step-IsAwaited {l = l} (writes n e) c h = subst IsAwaited (sym e) (acquire_write-IsAwaited n l)
Step-IsAwaited {l = l} (read_ends held e) c h = subst IsAwaited (sym e) (release_read-IsAwaited l)
Step-IsAwaited {l = l} (write_ends w e) c h = subst IsAwaited (sym e) (release_write-IsAwaited l)
Step-IsAwaited {l = l} (resumes n kind xs ys e f) c h =
    subst IsAwaited (sym f) (resume-IsAwaited n kind xs ys l e c h)
Step-IsAwaited {l = l} (sleeper_cancelled n kind xs ys g e f) c h =
    subst IsAwaited (sym f) (cancel_wait-IsAwaited kind _ g (fewer_asleep n kind xs ys l e h))
Step-IsAwaited {l = l} (waker_cancelled n kind xs ys g e f) c h =
    subst IsAwaited (sym f) (cancel_wait-IsAwaited kind _ g (fewer_awake n kind xs ys l g e h))

new_lock-IsAwaited : IsAwaited new_lock
unfolding IsAwaited
new_lock-IsAwaited h = absurd (ground (arith, h))

awaited : (l : Lock) → Reach only_readers l → IsAwaited l
awaited l here = new_lock-IsAwaited
awaited l (next r step) = Step-IsAwaited step (Reach-IsExclusive _ r).counted (awaited _ r)

-- Where no waiting writer is cancelled, no wake-up is lost: while anybody sleeps, the lock is held, so
-- that its release will wake the sleepers, or a writer that has been woken is about to test for it.
pub Reach-is_held : (l : Lock) → Reach only_readers l → is_empty l.asleep ≡ false → is_held l ≡ true
unfolding IsAwaited
Reach-is_held l r h = awaited l r h
