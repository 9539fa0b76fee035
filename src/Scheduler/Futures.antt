-- ===== src/Scheduler/Futures.antt =====
-- What happens to the future and the token of one job.
use doppel_agent.Prelude.{
  ℕ, ◌≤◌, ◌<◌, String, ◌≡◌, refl, Bool, true, false, Option, none, some, List, [], ◌∷◌, arith,
  lookup, inl, inr, ◌⊎◌, Bool-cases,
}
use doppel_agent.Scheduler.{
  Scheduler, Job, Future, pending, result, failure, cancelled_future, settle, start, submit, take,
  run_of, invoke, finish, cancel, cancel_queued, cancel_tasks, cancel_token, cancel_job, update,
  shutdown, join, put_stop,
}
use doppel_agent.Scheduler.Step.{
  is_done, Step, starts, submits, takes, invokes, finishes, cancels, shuts_down, joins, stops,
  Reach, here, next,
}

-- The job may lose neither its outcome nor its cancellation.
pub record Keeps (a b : Job) : Type 0 where
  pub outcome : is_done a.future ≡ true → b.future ≡ a.future
  pub token : a.token ≡ true → b.token ≡ true

pub record KeepsJobs (s t : Scheduler) : Type 0 where
  pub created : s.created ≤ t.created
  pub kept : (n : ℕ) → n < s.created → Keeps (s.store n) (t.store n)

settle-done : (f g : Future) → is_done f ≡ true → settle f g ≡ f
settle-done pending g h = absurd (ground arith)
settle-done (result v) g h = refl
settle-done (failure v) g h = refl
settle-done cancelled_future g h = refl

Keeps-settle :
    (job : Job) (f : Future) (token started : Bool)
    → (job.token ≡ true → token ≡ true)
    → Keeps job (record {
      run_id = job.run_id;
      future = settle job.future f;
      token = token;
      started = started;
    })
Keeps-settle job f token started h = record { outcome = λ d. settle-done job.future f d; token = h }

Keeps-refl : (job : Job) → Keeps job job
Keeps-refl job = record { outcome = λ d. refl; token = λ d. d }

Keeps-update :
    (m : ℕ) (job : Job) (store : ℕ → Job) (n : ℕ)
    → Keeps (store m) job
    → Keeps (store n) (update m job store n)
Keeps-update m job store n h = ground (arith, Keeps-refl (store n))

KeepsJobs-refl : (s : Scheduler) → KeepsJobs s s
KeepsJobs-refl s = record { created = omega arith; kept = λ n h. Keeps-refl (s.store n) }

Keeps-trans : (a b c : Job) → Keeps a b → Keeps b c → Keeps a c
Keeps-trans a b c h k = record {
  outcome = λ d. ground (arith, h.outcome d, k.outcome, d);
  token = λ d. k.token (h.token d);
}

KeepsJobs-trans : (s t u : Scheduler) → KeepsJobs s t → KeepsJobs t u → KeepsJobs s u
KeepsJobs-trans s t u h k = record {
  created = omega (arith, h.created, k.created);
  kept = λ n l. Keeps-trans _ _ _ (h.kept n l) (k.kept n (omega (arith, l, h.created)));
}

-- a step that writes one job, and keeps what it was
KeepsJobs-update :
    (m : ℕ) (job : Job) (s t : Scheduler)
    → t.created ≡ s.created
    → t.store ≡ update m job s.store
    → Keeps (s.store m) job
    → KeepsJobs s t
KeepsJobs-update m job s t e f h = record {
  created = omega (arith, e);
  kept = λ n l. rw f (Keeps-update m job s.store n h);
}

submit-KeepsJobs : (run : String) (s : Scheduler) → KeepsJobs s (submit run s).1
unfolding submit
submit-KeepsJobs run s = record {
  created = ground arith;
  kept = λ n l. ground (arith, l, Keeps-refl (s.store n));
}

take-KeepsJobs : (s : Scheduler) → KeepsJobs s (take s)
unfolding take
take-KeepsJobs s = by_queue s.queue refl
  where
    by_queue : (q : List (Option ℕ)) → s.queue ≡ q → KeepsJobs s (take s)
    by_queue [] e = ground (arith, e, KeepsJobs-refl s)
    by_queue (none ∷ rest) e = record {
      created = ground (arith, e);
      kept = λ m l. ground (arith, e, Keeps-refl (s.store m));
    }
    by_queue (some n ∷ rest) e = record {
      created = ground (arith, e);
      kept = λ m l. ground (
        arith,
        e,
        Keeps-refl (s.store m),
        Keeps-update n _ s.store m (
            Keeps-settle (s.store n) cancelled_future (s.store n).token (s.store n).started
              (λ t. t)),
      );
    }

finish-KeepsJobs : (n : ℕ) (outcome : Future) (s : Scheduler) → KeepsJobs s (finish n outcome s)
unfolding finish
finish-KeepsJobs n outcome s = by_run (run_of n s.busy) refl
  where
    by_run : (r : Option String) → run_of n s.busy ≡ r → KeepsJobs s (finish n outcome s)
    by_run none e = rw (e, finish) (KeepsJobs-refl s)
    by_run (some run) e =
        rw (e, finish)
          (KeepsJobs-update n _ _ _ refl refl (Keeps-settle (s.store n) outcome _ _ (λ t. t)))

invoke-KeepsJobs : (n : ℕ) (s : Scheduler) → KeepsJobs s (invoke n s)
unfolding invoke
invoke-KeepsJobs n s = record {
  created = ground arith;
  kept = λ m l. ground (arith, Keeps-refl (s.store m));
}

cancel_job-Keeps : (task : Option ℕ) (job : Job) → Keeps job (cancel_job task job)
cancel_job-Keeps none job = Keeps-settle job cancelled_future true job.started (λ t. refl)
cancel_job-Keeps (some task) job = record { outcome = λ d. refl; token = λ t. refl }

cancel-KeepsJobs : (run : String) (s : Scheduler) → KeepsJobs s (cancel run s).1
unfolding cancel
cancel-KeepsJobs run s = by_job (lookup run s.jobs) refl
  where
    by_job : (o : Option ℕ) → lookup run s.jobs ≡ o → KeepsJobs s (cancel run s).1
    by_job none e = rw (e, cancel) (KeepsJobs-refl s)
    by_job (some n) e = record {
      created = ground (arith, e);
      kept = λ m l. ground (
        arith,
        e,
        Keeps-refl (s.store m),
        Keeps-update n _ s.store m (cancel_job-Keeps (lookup run s.tasks) (s.store n)),
      );
    }

cancel_queued-KeepsJobs :
    (jobs : List (String × ℕ)) (s : Scheduler) → KeepsJobs s (cancel_queued jobs s)
unfolding cancel_queued
cancel_queued-KeepsJobs [] s = KeepsJobs-refl s
cancel_queued-KeepsJobs ((run, n) ∷ rest) s =
    KeepsJobs-trans s _ _
      (record {
        created = ground arith;
        kept = λ m l. ground (
          arith,
          Keeps-refl (s.store m),
          Keeps-update n _ s.store m (cancel_job-Keeps none (s.store n)),
        );
      })
      (cancel_queued-KeepsJobs rest _)

cancel_token-Keeps :
    (o : Option ℕ) (store : ℕ → Job) (n : ℕ) → Keeps (store n) (cancel_token o store n)
cancel_token-Keeps none store n = Keeps-refl (store n)
cancel_token-Keeps (some m) store n =
    Keeps-update m _ store n (record { outcome = λ d. refl; token = λ t. refl })

cancel_tasks-KeepsJobs :
    (tasks : List (String × ℕ)) (s : Scheduler) → KeepsJobs s (cancel_tasks tasks s)
unfolding cancel_tasks
cancel_tasks-KeepsJobs [] s = KeepsJobs-refl s
cancel_tasks-KeepsJobs ((run, task) ∷ rest) s =
    KeepsJobs-trans s _ _
      (record {
        created = omega arith;
        kept = λ m l. cancel_token-Keeps (lookup run s.jobs) s.store m;
      })
      (cancel_tasks-KeepsJobs rest _)

-- a step that writes no job
same_jobs : (s t : Scheduler) → t.created ≡ s.created → t.store ≡ s.store → KeepsJobs s t
same_jobs s t e f = record {
  created = omega (arith, e);
  kept = λ n l. rw f (Keeps-refl (s.store n));
}

shutdown-KeepsJobs : (p r : Bool) (s : Scheduler) → KeepsJobs s (shutdown p r s)
unfolding shutdown
shutdown-KeepsJobs p r s = record {
  created = ground (
    arith,
    cancel_queued-KeepsJobs s.jobs (record s { accepting = false }),
    cancel_tasks-KeepsJobs s.tasks (record s { accepting = false }),
    cancel_tasks-KeepsJobs (cancel_queued s.jobs (record s { accepting = false })).tasks
        (cancel_queued s.jobs (record s { accepting = false })),
  );
  kept = λ n l. by_flags n l p r (Bool-cases s.has_workers);
}
  where
    by_flags :
        (n : ℕ)
        → n < s.created
        → (p r : Bool) → (s.has_workers ≡ true) ⊎ (s.has_workers ≡ false)
        → Keeps (s.store n) ((shutdown p r s).store n)
    by_flags n l p r (inr e) = rw (e, shutdown) (Keeps-refl (s.store n))
    by_flags n l true true (inl e) =
        rw (e, shutdown)
          ((KeepsJobs-trans _ _ _ (cancel_queued-KeepsJobs s.jobs _)
              (cancel_tasks-KeepsJobs _ _)).kept
            n l)
    by_flags n l true false (inl e) = rw (e, shutdown) ((cancel_queued-KeepsJobs s.jobs _).kept n l)
    by_flags n l false true (inl e) = rw (e, shutdown) ((cancel_tasks-KeepsJobs _ _).kept n l)
    by_flags n l false false (inl e) = rw (e, shutdown) (Keeps-refl (s.store n))

start-KeepsJobs : (s : Scheduler) → KeepsJobs s (start s)
unfolding start
start-KeepsJobs s = same_jobs s (start s) (ground arith) (ground arith)

join-KeepsJobs : (i : ℕ) (s : Scheduler) → KeepsJobs s (join i s)
unfolding join
join-KeepsJobs i s = same_jobs s (join i s) (ground arith) (ground arith)

put_stop-KeepsJobs : (i : ℕ) (s : Scheduler) → KeepsJobs s (put_stop i s)
unfolding put_stop
put_stop-KeepsJobs i s = same_jobs s (put_stop i s) (ground arith) (ground arith)

Step-KeepsJobs : {s t : Scheduler} → Step s t → KeepsJobs s t
Step-KeepsJobs starts = start-KeepsJobs _
Step-KeepsJobs (submits run) = submit-KeepsJobs run _
Step-KeepsJobs takes = take-KeepsJobs _
Step-KeepsJobs (invokes n) = invoke-KeepsJobs n _
Step-KeepsJobs (finishes n outcome d) = finish-KeepsJobs n outcome _
Step-KeepsJobs (cancels run) = cancel-KeepsJobs run _
Step-KeepsJobs (shuts_down p r) = shutdown-KeepsJobs p r _
Step-KeepsJobs (joins i) = join-KeepsJobs i _
Step-KeepsJobs (stops i) = put_stop-KeepsJobs i _

-- Whatever the callers and workers do, a job that was created keeps the outcome that its future was
-- once resolved with, and once its token is cancelled it stays so.
pub Reach-KeepsJobs : (s t : Scheduler) → Reach s t → KeepsJobs s t
Reach-KeepsJobs s t here = KeepsJobs-refl s
Reach-KeepsJobs s t (next {t = u} r step) =
    KeepsJobs-trans s u t (Reach-KeepsJobs s u r) (Step-KeepsJobs step)
