-- ===== src/Thread.antt =====
-- src/moThread.cpp with `_thread_process`, `needUpdate(true)`, `notifyUpdate` and `stop` of
-- src/moModule.cpp: a module's thread, whoever notifies it and whoever stops it, as interleaved
-- steps. The trigger of ptypes resets itself when a wait returns.
pub mod Wakeup
use movid.Base.{
  ℕ, zero, suc, ◌≡◌, Bool, true, false, not, Option, none, some, ◌&&◌, ◌||◌, if◌then◌else◌,
}

-- Where the thread stands: at the test of `wantQuit`, at the first test of `need_update`, about to
-- clear it, in `thread_trigger->wait()`, at the second test, in `update()`, at its end.
pub data Worker : Type 0 where
  top check clear waiting recheck updating exited : Worker

-- Whether `stop` has written its flag and has still to post the trigger.
pub data Caller : Type 0 where
  idle posting : Caller

-- `notifiers` counts the calls of `notifyUpdate` that have written the flag and have still to post the
-- trigger: the main loop and threads of modules, the module's own among them, call it at once.
-- `pending` says that there was a notification since the last `update()` began; the program does not
-- have it.
pub record Threads : Type 0 where
  pub need_update : Bool
  pub trigger : Bool
  pub want_quit : Bool
  pub worker : Worker
  pub notifiers : ℕ
  pub stopper : Caller
  pub pending : Bool

abbrev pub at : Worker → Threads → Threads
at pc t = record t { worker = pc }

-- One step of the thread; `none` where it is blocked or gone.
unfoldable pub work_at : Worker → Threads → Option Threads
work_at top t = some (if t.want_quit then at exited t else at check t)
work_at check t = some (if t.need_update then at clear t else at waiting t)
work_at clear t = some (record t { need_update = false; worker = updating; pending = false })
work_at waiting t =
    if t.trigger then some (record t { trigger = false; worker = recheck }) else none
work_at recheck t = some (if t.need_update then at clear t else at top t)
work_at updating t = some (at top t)
work_at exited t = none

unfoldable pub work : Threads → Option Threads
unfolding work_at
work t = work_at t.worker t

-- The two writes of `notifyUpdate` in a module that runs: the flag, and the trigger.
abbrev pub asked : Threads → Threads
asked t = record t { need_update = true; notifiers = suc t.notifiers; pending = true }

abbrev pub posted : ℕ → Threads → Threads
posted others t = record t { trigger = true; notifiers = others }

-- The two writes of `stop`: the flag of the thread, and the trigger.
abbrev pub stop_asked : Threads → Threads
stop_asked t = record t { want_quit = true; stopper = posting }

abbrev pub stop_posted : Threads → Threads
stop_posted t = record t { trigger = true; stopper = idle }

-- The thread, any number of notifiers, and `stop`, which the main loop alone calls.
pub data Move : Threads → Threads → Type 0 where
  works : {t u : Threads} → work t ≡ some u → Move t u
  notifies : (t : Threads) → Move t (asked t)
  posts_update : (t : Threads) (others : ℕ) → t.notifiers ≡ suc others → Move t (posted others t)
  stops : (t : Threads) → t.stopper ≡ idle → Move t (stop_asked t)
  posts_stop : (t : Threads) → t.stopper ≡ posting → Move t (stop_posted t)

pub data Reach (s : Threads) : Threads → Type 0 where
  here : Reach s s
  later : {t u : Threads} → Reach s t → Move t u → Reach s u

-- After `start`.
abbrev pub started : Threads
started = record {
  need_update = false;
  trigger = false;
  want_quit = false;
  worker = top;
  notifiers = 0;
  stopper = idle;
  pending = false;
}

-- Some steps of the thread alone.
unfoldable pub work_for : ℕ → Threads → Option Threads
unfolding work
work_for zero t = some t
work_for (suc n) t = elim (work t) [ none ↦ none | some u ↦ work_for n u ]
