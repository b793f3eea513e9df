-- ===== src/Examples/Threading.antt =====
-- The theorems on a module's thread and on the main loop's errors.
use movid.Base.{suc, ◌≡◌, refl, Text, true, false, none, some, List, codes, length}
use movid.World.{World}
use movid.Pipeline.{pipeline_have_error}
use movid.Daemon.{drain_errors}
use movid.Daemon.Errors.{drain_errors_ends, drain_errors_stuck}
use movid.Thread.{
  Threads, waiting, works, notifies, posts_update, Reach, here, later, started, work, work_for,
}
use movid.Thread.Wakeup.{Served, update_follows}
use movid.Examples.Objects.{whole, two}

-- The thread waits, then it is notified.
abbrev asleep : Threads
asleep = record started { worker = waiting }

asleep-Reach : Reach started asleep
unfolding work
asleep-Reach = later (later here (works refl)) (works refl)

abbrev notified : Threads
notified = record asleep { need_update = true; trigger = true; pending = true }

notified-Reach : Reach started notified
notified-Reach = later (later asleep-Reach (notifies asleep)) (posts_update _ 0 refl)

abbrev stopped : Threads
stopped = record asleep { want_quit = true; trigger = true }

update_follows_example : Served notified (work_for 3 notified)
update_follows_example = update_follows notified notified-Reach (λ e. cc) refl refl refl

abbrev broken : World
broken = record two { last_internal_error = codes "Unable to open" }

drain_errors_ends_example :
    (r : List Text × World) × (drain_errors (suc (length two.elements)) false two ≡ some r)
    × (pipeline_have_error r.1 ≡ false)
drain_errors_ends_example = drain_errors_ends false two refl

drain_errors_stuck_example : drain_errors 4 false broken ≡ none
drain_errors_stuck_example = drain_errors_stuck 4 false broken (λ e. cc)
