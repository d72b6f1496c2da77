-- ===== src/ThreadPool/Tests.antt =====
-- Runs of the pool, and its theorems at concrete inputs.
use local_marks.Prelude.{◌≡◌, refl, false, some, [], ◌∷◌, arith}
use local_marks.ThreadPool.{ThreadTask, thread_pool_submit, worker_section, thread_pool_stop}
use local_marks.ThreadPool.Run.{
  System, start, Reach, submit, work, destroy, here, next, IsOrderly, Reach-IsOrderly, after_submit,
  after_work,
}
use local_marks.Prelude.{◌⊎◌, ◌<◌, ◌+◌, ◌-◌, length, arith}
use local_marks.ThreadPool.{queue_capacity}
use local_marks.ThreadPool.Queue.{waiting}
use local_marks.ThreadPool.Wake
use local_marks.ThreadPool.Close
use local_marks.ThreadPool.Close.{broadcast, after_look, fall_asleep}
use local_marks.ThreadPool.Close.Joins.{Run-Joins}
use local_marks.ThreadPool.Wake.{Reach-NoneStranded, all_awake, signal_submit, signal_work}

abbrev job : ThreadTask
job = record { func = 1; drop_func = some 2; arg = some 3 }

-- a task is queued, a worker takes it, the pool stops, a second task is dropped, the worker leaves
history : (s : System) × Reach (start 2) s
history = (_, next (next (next (next (next here (submit job)) work) destroy) (submit job)) work)

Reach-IsOrderly_example : IsOrderly history.0
Reach-IsOrderly_example = Reach-IsOrderly 2 history.1

history_ends :
    (history.0.exited ≡ 1) × (history.0.taken ≡ job ∷ []) × (history.0.drops ≡ some (2, 3) ∷ [])
unfolding history after_submit after_work thread_pool_submit worker_section thread_pool_stop
history_ends = (refl, refl, refl)

-- a worker falls asleep, and a task wakes it
woken : (s : Wake.Sleepers) × Wake.Reach (all_awake 2) s
unfolding signal_work worker_section
woken = (_, Wake.next (Wake.next Wake.here (Wake.work (omega arith))) (Wake.submit job refl))

Reach-NoneStranded_example :
    ((waiting woken.0.pool ≡ []) ⊎ (woken.0.asleep < 2))
    × ((woken.0.caller_asleep ≡ false) ⊎ (length (waiting woken.0.pool) ≡ queue_capacity))
Reach-NoneStranded_example = Reach-NoneStranded 2 (omega arith) woken.1

-- a worker finds nothing; with and without its wait the pool is closed
looked : (s : Close.Workers) × Close.Reach (Close.all_awake 2) s
unfolding after_look worker_section
looked = (_, Close.work Close.here (Close.look refl (omega arith)))

slept : (s : Close.Workers) × Close.Reach (Close.all_awake 2) s
unfolding looked after_look worker_section
slept = (_, Close.work looked.1 (Close.sleep (omega arith)))

slept-free : slept.0.in_window ≡ 0
unfolding slept looked after_look worker_section fall_asleep
slept-free = refl

Run-Joins_example :
    (0 + length (waiting (broadcast slept.0).pool) + (2 - (broadcast slept.0).exited)
      ≡ length (waiting slept.0.pool) + 2)
    × ((broadcast slept.0).exited < 2 → (u : Close.Workers) × Close.Step (broadcast slept.0) u)
Run-Joins_example = Run-Joins 2 slept.1 slept-free Close.start
