-- ===== src/Thread/Wakeup.antt =====
-- No notification and no stop of a module's thread (src/moThread.cpp, src/moModule.cpp) is lost.
use movid.Base.{ℕ, ◌≡◌, ◌≢◌, refl, Bool, true, false, not, Option, none, some, ◌||◌, ltb, arith}
use movid.Thread.{
  Worker, top, check, clear, waiting, recheck, updating, exited, Caller, idle, posting, Threads,
  work_at, work, Move, works, notifies, posts_update, stops, posts_stop, Reach, here, later,
  started, work_for,
}

abbrev is_clear : Worker → Bool
is_clear clear = true
is_clear _ = false

abbrev is_waiting : Worker → Bool
is_waiting waiting = true
is_waiting _ = false

abbrev is_posting : Caller → Bool
is_posting posting = true
is_posting idle = false

-- A thread that is in the wait, or will be before it looks at `want_quit` again.
abbrev before_wait : Worker → Bool
before_wait check = true
before_wait waiting = true
before_wait _ = false

-- A notification is in `need_update`, or about to be served; a thread in the wait that has something
-- to do is woken or will be.
pub record IsAwake (t : Threads) : Type 0 where
  pub kept : (not t.pending || (t.need_update || is_clear t.worker)) ≡ true
  pub woken :
      (not t.need_update || (not (is_waiting t.worker) || (t.trigger || ltb 0 t.notifiers))) ≡ true
  pub quits :
      (not t.want_quit || (not (before_wait t.worker) || (t.trigger || is_posting t.stopper)))
      ≡ true

work_at-IsAwake :
    (pc : Worker) (t u : Threads) → t.worker ≡ pc → IsAwake t → work_at pc t ≡ some u → IsAwake u
unfolding work_at
work_at-IsAwake top t u e a h = ground arith
work_at-IsAwake check t u e a h = ground arith
work_at-IsAwake clear t u e a h = ground arith
work_at-IsAwake waiting t u e a h = ground arith
work_at-IsAwake recheck t u e a h = ground arith
work_at-IsAwake updating t u e a h = ground arith
work_at-IsAwake exited t u e a h = cc

Move-IsAwake : {t u : Threads} → Move t u → IsAwake t → IsAwake u
unfolding work
Move-IsAwake (works {t} {u} h) a = work_at-IsAwake t.worker t u refl a h
Move-IsAwake (notifies t) a = ground arith
Move-IsAwake (posts_update t others h) a = ground arith
Move-IsAwake (stops t h) a = ground arith
Move-IsAwake (posts_stop t h) a = ground arith

pub Reach-IsAwake : {t : Threads} → Reach started t → IsAwake t
Reach-IsAwake here = record { kept = refl; woken = refl; quits = refl }
Reach-IsAwake (later r m) = Move-IsAwake m (Reach-IsAwake r)

-- How many steps of the thread lead to the next update.
abbrev pub rounds_to_update : Worker → ℕ
rounds_to_update top = 3
rounds_to_update check = 2
rounds_to_update clear = 1
rounds_to_update waiting = 3
rounds_to_update recheck = 2
rounds_to_update updating = 4
rounds_to_update exited = 0

abbrev pub rounds_to_exit : Worker → Bool → ℕ
rounds_to_exit top need = 1
rounds_to_exit check need = 4
rounds_to_exit clear need = 3
rounds_to_exit waiting true = 5
rounds_to_exit waiting false = 3
rounds_to_exit recheck true = 4
rounds_to_exit recheck false = 2
rounds_to_exit updating need = 2
rounds_to_exit exited need = 0

abbrev pub Served : Threads → Option Threads → Type 0
Served t none = ⊥
Served t (some u) = (u.worker ≡ updating) × (u.pending ≡ false)

abbrev pub Gone : Option Threads → Type 0
Gone none = ⊥
Gone (some u) = u.worker ≡ exited

update_follows_lem :
    (pc : Worker) (t : Threads)
    → t.worker ≡ pc
    → pc ≢ exited
    → IsAwake t
    → t.pending ≡ true
    → t.want_quit ≡ false
    → t.notifiers ≡ 0
    → Served t (work_for (rounds_to_update pc) t)
unfolding work_for
update_follows_lem top t e live a p q i = ground arith
update_follows_lem check t e live a p q i = ground arith
update_follows_lem clear t e live a p q i = ground arith
update_follows_lem waiting t e live a p q i = ground arith
update_follows_lem recheck t e live a p q i = ground arith
update_follows_lem updating t e live a p q i = ground arith
update_follows_lem exited t e live a p q i = absurd (live refl)

-- From any reachable state with a notification that no update serves yet, once the notifiers have
-- posted, and if the thread has not ended and no stop is asked for, the thread begins an update
-- within four steps of its own.
pub update_follows :
    (t : Threads)
    → Reach started t
    → t.worker ≢ exited
    → t.pending ≡ true
    → t.want_quit ≡ false
    → t.notifiers ≡ 0
    → Served t (work_for (rounds_to_update t.worker) t)
update_follows t r live p q i = update_follows_lem t.worker t refl live (Reach-IsAwake r) p q i
