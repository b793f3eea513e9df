-- ===== src/Module/Lifecycle.antt =====
-- src/moModule.cpp: starting, stopping and polling a module, and its statistics.
use movid.Base.{
  ℕ, ◌+◌, ◌/◌, ◌%◌, Text, pos, Bool, true, false, Option, none, some, List, ◌==◌, if◌then◌else◌,
  codes, ◌&&◌,
}
use movid.Float.{Floats}
use movid.Property.{as_bool}
use movid.World.{
  Stats, update, own_start, own_stop, own_poll, gui_build, World, write_module, emit, now, tick,
}
use movid.Module.Properties.{property, touch}

module _ ⦃F : Floats⦄ where
  open F use {Double}

  unfoldable pub stats_init : Double → Stats → Stats
  stats_init now s = record s { last_time = now }

  unfoldable pub stats_wait : Double → Stats → Stats
  stats_wait now s = record s {
    wait_time = F.add s.wait_time (F.sub now s.last_time);
    last_time = now;
  }

  -- The period ends when more than a second was spent in it.
  unfoldable pub stats_average : Stats → Stats
  stats_average s =
      if F.lt F.one_double (F.add s.process_time s.wait_time)
      then record s {
        average_process_time = F.div s.process_time (F.of_int (pos s.process_frame));
        average_wait_time = F.div s.wait_time (F.of_int (pos s.process_frame));
        average_fps = F.div (F.of_int (pos s.process_frame)) (F.add s.process_time s.wait_time);
        total_wait_time = F.add s.total_wait_time s.wait_time;
        total_process_time = F.add s.total_process_time s.process_time;
        total_process_frame = (s.total_process_frame + s.process_frame) % 18446744073709551616;
        process_frame = 0;
        process_time = F.zero_double;
        wait_time = F.zero_double;
      }
      else s

  unfoldable pub stats_process : Double → Stats → Stats
  unfolding stats_average
  stats_process now s = stats_average (record s {
    process_time = F.add s.process_time (F.sub now s.last_time);
    last_time = now;
    process_frame = (s.process_frame + 1) % 18446744073709551616;
  })

  -- `start`; `new moThread` throws rather than return NULL, so the thread is always there.
  unfoldable pub start : ℕ → World → World
  unfolding stats_init
  start m w0 =
      let w = touch m (codes "use_thread") w0 in
      let threaded = as_bool (property m (codes "use_thread") w) in
      let md = w.modules m in
      emit (own_start m) (
        write_module m
          (record md {
            use_thread = threaded;
            stats = stats_init (now w) md.stats;
            thread_trigger = if threaded then true else md.thread_trigger;
            thread = if threaded then true else md.thread;
            is_started = true;
          })
          (tick w))

  unfoldable pub stop : ℕ → World → World
  stop m w =
      let md = w.modules m in
      let joined = md.use_thread && md.thread in
      emit (own_stop m) (
        write_module m
          (record md {
            thread = if joined then false else md.thread;
            use_thread = if joined then false else md.use_thread;
            need_update = false;
            is_started = false;
          })
          w)

  abbrev pub is_started : ℕ → World → Bool
  is_started m w = (w.modules m).is_started

  -- `notifyUpdate` starts a module that was added after the pipeline was started.
  unfoldable pub notify_update : ℕ → World → World
  unfolding start
  notify_update m w0 =
      let w = if (w0.modules m).is_started then w0 else start m w0 in
      write_module m (record (w.modules m) { need_update = true }) w

  -- `needUpdate(false)`
  unfoldable pub need_update : ℕ → World → Bool × World
  need_update m w =
      if (w.modules m).need_update
      then (true, write_module m (record (w.modules m) { need_update = false }) w)
      else (false, w)

  -- A statistics call, which reads the clock.
  abbrev pub with_stats : (Double → Stats → Stats) → ℕ → World → World
  with_stats f m w =
      write_module m (record (w.modules m) { stats = f (now w) (w.modules m).stats }) (tick w)

  -- `poll` runs the update of a module that has no thread and was notified.
  unfoldable pub poll : ℕ → World → World
  unfolding need_update stats_wait stats_process
  poll m w0 =
      let w = emit (own_poll m) w0 in
      if (w.modules m).use_thread
      then w
      else (let (due, w') = need_update m w in
          if due
          then with_stats stats_process m (emit (update m) (with_stats stats_wait m w'))
          else w')

  -- `getCapabilities() & MO_MODULE_GUI`
  abbrev pub has_gui : ℕ → World → Bool
  has_gui m w = (w.modules m).capabilities / 4 % 2 == 1

  -- `getGui`; `none` is a failed `assert`.
  unfoldable pub get_gui : ℕ → World → Option (List Text × World)
  get_gui m w =
      let w' =
        if (w.modules m).need_gui_build
        then emit (gui_build m) (write_module m (record (w.modules m) { need_gui_build = false }) w)
        else w in
      if has_gui m w then some ((w'.modules m).gui, w') else none
