-- ===== src/Valid/Calls.antt =====
-- What the code of module classes calls: `notifyUpdate` of src/moModule.cpp and `push` of
-- src/moDataStream.cpp touch no connection.
use movid.Base.{ℕ, Option, List, [], ◌∷◌, refl, arith, if◌then◌else◌}
use movid.Float.{Floats}
use movid.World.{World, notify_data, write_stream}
use movid.DataStream.{notify_observers, push}
use movid.Module.Lifecycle.{start, notify_update}
use movid.Valid.{IsQuiet, IsQuiet-refl, IsQuiet-trans, write_module-IsQuiet}
use movid.Valid.Quiet.{if-IsQuiet, start-IsQuiet, emit-IsQuiet}

module _ ⦃F : Floats⦄ where
  pub notify_update-IsQuiet : (m : ℕ) (w : World) → IsQuiet w (notify_update m w)
  unfolding notify_update
  notify_update-IsQuiet m w =
      let u = if (w.modules m).is_started then w else start m w in
      IsQuiet-trans (if-IsQuiet (w.modules m).is_started (IsQuiet-refl w) (start-IsQuiet m w))
        (write_module-IsQuiet m _ u refl refl)

  notify_observers-IsQuiet : (s : ℕ) (ms : List ℕ) (w : World) → IsQuiet w (notify_observers s ms w)
  unfolding notify_observers
  notify_observers-IsQuiet s [] w = IsQuiet-refl w
  notify_observers-IsQuiet s (m ∷ ms) w =
      IsQuiet-trans (emit-IsQuiet (notify_data m s) w) (notify_observers-IsQuiet s ms _)

  content-IsQuiet :
      (s : ℕ) (content : Option ℕ) (w : World)
      → IsQuiet w (write_stream s (record (w.streams s) { content = content }) w)
  content-IsQuiet s content w = record {
    same_inputs = λ m. refl;
    same_outputs = λ m. refl;
    same_observers = λ t. ground arith;
    same_next_module = refl;
    same_next_stream = refl;
    same_elements = refl;
    same_database = refl;
    same_freed = refl;
  }

  pub push-IsQuiet : (s : ℕ) (content : Option ℕ) (w : World) → IsQuiet w (push s content w)
  unfolding push
  push-IsQuiet s content w =
      IsQuiet-trans (content-IsQuiet s content w)
        (notify_observers-IsQuiet s (w.streams s).observers _)
