-- ===== src/Locks/Tests.antt =====
-- Small runs of the lock.
use doppel_agent.Prelude.{◌≡◌, refl, Bool, true, false, [], ◌∷◌}
use doppel_agent.Locks.{
  Kind, reader, writer, Lock, new_lock, acquire_read, acquire_write, release_read, resume,
  cancel_wait,
}
use doppel_agent.Locks.Exclusion.{reads, writes, Reach, here, next, IsExclusive, Reach-IsExclusive}
use doppel_agent.Locks.Wakeups.{only_readers, is_empty, is_held, Reach-is_held}

abbrev any_kind : Kind → Bool
any_kind kind = true

-- a reader holds the lock, a writer and another reader sleep
abbrev queued : Lock
queued = acquire_read 3 (acquire_write 2 (acquire_read 1 new_lock))

queued_reached : (c : Kind → Bool) → Reach c queued
queued_reached c = next (next (next here (reads 1 refl)) (writes 2 refl)) (reads 3 refl)

Reach-IsExclusive_example : IsExclusive queued
Reach-IsExclusive_example = Reach-IsExclusive queued (queued_reached any_kind)

queued_asleep : is_empty queued.asleep ≡ false
unfolding acquire_read acquire_write
queued_asleep = refl

Reach-is_held_example : is_held queued ≡ true
Reach-is_held_example = Reach-is_held queued (queued_reached only_readers) queued_asleep

-- With the writer cancelled after the reader's release has woken both and the second reader has gone
-- to sleep again, nobody holds the lock, and that reader sleeps on.
abbrev stranded : Lock
stranded =
    cancel_wait writer
      (record (resume 3 reader (record (release_read queued) { awake = (2, writer) ∷ [] })) {
        awake = [];
      })

stranded_asleep : stranded ≡ record new_lock { asleep = (3, reader) ∷ [] }
unfolding acquire_read acquire_write release_read resume cancel_wait
stranded_asleep = refl
