-- ===== src/World.antt =====
-- The state of the daemon: the live objects of src/moModule.h, src/moDataStream.h and
-- src/moPipeline.h, and the globals of src/movid.cpp. An object is named by a number, its address,
-- and the two heaps are functions from addresses. A method that a module class overrides is not
-- run: the call is recorded in `events`, oldest first.
use movid.Base.{ℕ, suc, Text, ℤ, Bool, Option, List, [], ◌∷◌, ◌++◌, ◌==◌, if◌then◌else◌}
use movid.Base.Dict.{Dict}
use movid.Float.{Floats}
use movid.Property.{Property}

-- moDataStreamInfo
pub record Info : Type 0 where
  pub name : Text
  pub type : Text
  pub description : Text

-- An entry of `input_map` with that of `input_infos`: `declareInput` asserts that both are there.
pub record Port : Type 0 where
  pub stream : Option ℕ
  pub info : Info

-- moDataStream
pub record Stream : Type 0 where
  pub format : Text
  pub content : Option ℕ
  pub observers : List ℕ

abbrev pub write_at : {A : Type 0} → (ℕ → A) → ℕ → A → ℕ → A
write_at h p v q = if p == q then v else h q

module _ ⦃F : Floats⦄ where
  open F use {Double}

  -- mo_module_stats_t
  pub record Stats : Type 0 where
    pub average_fps : Double
    pub average_process_time : Double
    pub average_wait_time : Double
    pub total_process_time : Double
    pub total_wait_time : Double
    pub total_process_frame : ℕ
    pub process_frame : ℕ
    pub process_time : Double
    pub wait_time : Double
    pub last_time : Double

  -- moModule; `name` is what `getName` returns, `thread` says whether the pointer is set.
  pub record Module : Type 0 where
    pub name : Text
    pub capabilities : ℕ
    pub is_started : Bool
    pub is_internal : Bool
    pub is_error : Bool
    pub error_msg : Text
    pub thread : Bool
    pub use_thread : Bool
    pub need_update : Bool
    pub thread_trigger : Bool
    pub need_gui_build : Bool
    pub owner : Option ℕ
    pub inputs : Dict ℤ Port
    pub outputs : Dict ℤ Port
    pub properties : Dict Text Property
    pub gui : List Text
    pub stats : Stats

  -- What the constructor of a module class adds to the base class: the factory's callback. Its bases
  -- are those between it and moModule that have a constructor with `MODULE_INIT`, as the blob
  -- trackers have; its properties may have callbacks with the module itself as their data.
  pub record ModuleClass : Type 0 where
    pub class_name : Text
    pub class_capabilities : ℕ
    pub class_bases : List Text
    pub class_properties : ℕ → Dict Text Property
    pub class_inputs : List (ℤ × Info)
    pub class_outputs : List (ℤ × Info × Text)

  -- A call that leaves the modelled code. The `own_` ones are what a module class that overrides the
  -- method does besides the base class.
  pub data Event : Type 0 where
    callback : ℕ → ℕ → Event
    gui_feedback : ℕ → Text → Double → Double → Event
    gui_build : ℕ → Event
    notify_data : ℕ → ℕ → Event
    update : ℕ → Event
    own_start : ℕ → Event
    own_stop : ℕ → Event
    own_poll : ℕ → Event
    own_destructor : ℕ → Event

  -- `elements` is the vector of the pipeline, whose own members are those of the module `pipeline`;
  -- `database` is that of the factory, `freed` lists the deleted modules, and `clock` gives what each
  -- call of `moUtils::time` returns.
  pub record World : Type 0 where
    pub modules : ℕ → Module
    pub streams : ℕ → Stream
    pub next_module : ℕ
    pub next_stream : ℕ
    pub idcount : ℕ
    pub pipeline : ℕ
    pub elements : List ℕ
    pub is_group : Bool
    pub last_internal_error : Text
    pub database : Dict Text ModuleClass
    pub freed : List ℕ
    pub clock : ℕ → Double
    pub ticks : ℕ
    pub delay : ℤ
    pub want_quit : Bool
    pub events : List Event

  abbrev pub write_module : ℕ → Module → World → World
  write_module m v w = record w { modules = write_at w.modules m v }

  abbrev pub write_stream : ℕ → Stream → World → World
  write_stream s v w = record w { streams = write_at w.streams s v }

  abbrev pub emit : Event → World → World
  emit e w = record w { events = w.events ++ e ∷ [] }

  abbrev pub now : World → Double
  now w = w.clock w.ticks

  abbrev pub tick : World → World
  tick w = record w { ticks = suc w.ticks }
