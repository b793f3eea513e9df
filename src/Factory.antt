-- ===== src/Factory.antt =====
-- src/moFactory.cpp: the classes by name, and the creation of a module; the constructor of
-- src/moModule.cpp, `createId`, and the macro `MODULE_INIT` of src/moModule.h.
pub mod Names
pub mod Ids
use movid.Base.{
  ℕ, suc, ◌+◌, ◌-◌, ◌%◌, Text, ℤ, false, Option, none, some, List, [], ◌∷◌, ◌++◌, if◌then◌else◌,
  codes, text_eq, length, take, drop, ltb, ◌&&◌,
}
use movid.Base.Dict.{Dict, find, insert, text_key, int_key, nat_key}
use movid.Float.{Floats}
use movid.Number.{print_nat}
use movid.Property.{Property, string, bool, new_property}
use movid.World.{Info, Port, Stats, Module, ModuleClass, World, write_module, write_stream}
use movid.DataStream.{new_stream}
use movid.Module.Properties.{gui_feedback_cb}

-- A leading "mo" and a trailing "Module" are left off, each only if something else stays.
unfoldable pub short_name : Text → Text
short_name name =
    let cut =
      if ltb 2 (length name) && text_eq (take 2 name) (codes "mo") then drop 2 name else name in
    if ltb 6 (length cut) && text_eq (drop (length cut - 6) cut) (codes "Module")
    then take (length cut - 6) cut
    else cut

-- The inputs, declared in turn.
unfoldable pub input_ports : List (ℤ × Info) → Dict ℤ Port → Dict ℤ Port
input_ports [] ports = ports
input_ports ((n, info) ∷ rest) ports =
    input_ports rest (insert n (record { stream = none; info = info }) ports)

module _ ⦃F : Floats⦄ where
  unfoldable pub register_module : Text → ModuleClass → World → World
  register_module name class w = record w { database = insert name class w.database }

  -- The base name with the next number; the counter is an `unsigned int`.
  unfoldable pub create_id : Text → World → Text × World
  create_id base w =
      (base ++ print_nat w.idcount, record w { idcount = (w.idcount + 1) % 4294967296 })

  abbrev pub zero_stats : Stats
  zero_stats = record {
    average_fps = F.zero_double;
    average_process_time = F.zero_double;
    average_wait_time = F.zero_double;
    total_process_time = F.zero_double;
    total_wait_time = F.zero_double;
    total_process_frame = 0;
    process_frame = 0;
    process_time = F.zero_double;
    wait_time = F.zero_double;
    last_time = F.zero_double;
  }

  -- The `gui_feedback` property of the base class, with its callback on the module `m`.
  unfoldable pub feedback_property : ℕ → Property
  unfolding new_property
  feedback_property m = record (new_property (string []) []) {
    callbacks = (gui_feedback_cb, m) ∷ [];
  }

  unfoldable pub insert_all : Dict Text Property → Dict Text Property → Dict Text Property
  insert_all [] ps = ps
  insert_all ((k, p) ∷ qs) ps = insert_all qs (insert k p ps)

  unfoldable pub base_properties : ℕ → Text → Dict Text Property
  unfolding feedback_property
  base_properties m id = insert (codes "id") (new_property (string id) []) (
      insert (codes "gui_feedback") (feedback_property m)
        (insert (codes "use_thread") (new_property (bool false) []) []))

  -- The module before its output streams are made.
  unfoldable pub new_module : ModuleClass → ℕ → Text → Module
  unfolding base_properties insert_all input_ports
  new_module class m id = record {
    name = class.class_name;
    capabilities = class.class_capabilities;
    is_started = false;
    is_internal = false;
    is_error = false;
    error_msg = [];
    thread = false;
    use_thread = false;
    need_update = false;
    thread_trigger = false;
    need_gui_build = false;
    owner = none;
    inputs = input_ports class.class_inputs [];
    outputs = [];
    properties = insert_all (class.class_properties m) (base_properties m id);
    gui = [];
    stats = zero_stats;
  }

  -- Each output is declared on a stream of its own, of the format that the class gives.
  unfoldable pub add_outputs : ℕ → List (ℤ × Info × Text) → World → World
  add_outputs m [] w = w
  add_outputs m ((n, info, format) ∷ rest) w =
      let s = w.next_stream in
      let port : Port = record { stream = some s; info = info } in
      add_outputs m rest (
        write_module m (record (w.modules m) { outputs = insert n port (w.modules m).outputs })
          (write_stream s (new_stream format) (record w { next_stream = suc s })))

  -- The `MODULE_INIT` of each base class takes a number too, for an id that is then replaced.
  abbrev pub base_inits : ModuleClass → World → World
  base_inits class w = record w { idcount = (w.idcount + length class.class_bases) % 4294967296 }

  unfoldable pub construct : ModuleClass → World → ℕ × World
  unfolding create_id new_module add_outputs
  construct class w =
      let m = w.next_module in
      let (id, w') = create_id class.class_name (base_inits class w) in
      (
        m,
        add_outputs m class.class_outputs
            (write_module m (new_module class m id) (record w' { next_module = suc m })),
      )

  unfoldable pub create : Text → World → Option (ℕ × World)
  unfolding short_name construct
  create name w = elim (find (short_name name) w.database) [
    | none ↦ none
    | some class ↦ some (construct class w)
  ]

  unfoldable pub names : Dict Text ModuleClass → List Text
  names [] = []
  names ((name, class) ∷ rest) = name ∷ names rest

  unfoldable pub list_modules : World → List Text
  unfolding names
  list_modules w = names w.database
