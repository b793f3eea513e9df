-- ===== src/Examples/Objects.antt =====
-- A double made of a whole number, and a daemon with two connected modules of src/movid.cpp's kind:
-- module 1 has an output on stream 0, which the input of module 2 holds.
use movid.Base.{
  ℕ, ◌+◌, ◌-◌, ◌*◌, ◌/◌, ◌==◌, Text, ℤ, pos, negsuc, false, none, some, [], ◌∷◌, if◌then◌else◌,
  codes, ltb,
}
use movid.Base.Dict.{Dict}
use movid.Float.{Floats}
use movid.Number.{print_nat, read_digits}
use movid.Property.{string, new_property}
use movid.World.{Info, Port, Stream, Stats, Module, World}

abbrev floor : ℤ → ℕ
floor (pos n) = n
floor (negsuc n) = 0

instance abbrev pub whole : Floats
whole = record {
  Double = ℕ;
  zero_double = 0;
  one_double = 1;
  add = λ a b. a + b;
  sub = λ a b. a - b;
  mul = λ a b. a * b;
  div = λ a b. if b == 0 then 0 else a / b;
  sqrt = λ a. a;
  pow = λ a b. a * a;
  fabs = λ a. a;
  lt = λ a b. ltb a b;
  is_zero = λ a. a == 0;
  of_int = floor;
  to_int = pos;
  to_float = λ a. a;
  atof = read_digits 0;
  print_fixed = print_nat;
  print_stream = print_nat;
}

abbrev pub no_stats : Stats
no_stats = record {
  average_fps = 0;
  average_process_time = 0;
  average_wait_time = 0;
  total_process_time = 0;
  total_wait_time = 0;
  total_process_frame = 0;
  process_frame = 0;
  process_time = 0;
  wait_time = 0;
  last_time = 0;
}

abbrev pub image : Info
image = record { name = codes "image"; type = codes "IplImage"; description = [] }

abbrev pub port_to : ℕ → Dict ℤ Port
port_to s = (pos 0, record { stream = some s; info = image }) ∷ []

abbrev pub module_with : Text → Dict ℤ Port → Dict ℤ Port → Module
module_with id inputs outputs = record {
  name = codes "Test";
  capabilities = 0;
  is_started = false;
  is_internal = false;
  is_error = false;
  error_msg = [];
  thread = false;
  use_thread = false;
  need_update = false;
  thread_trigger = false;
  need_gui_build = false;
  owner = none;
  inputs = inputs;
  outputs = outputs;
  properties = (codes "id", new_property (string id) []) ∷ [];
  gui = [];
  stats = no_stats;
}

abbrev pub modules_of : ℕ → Module
modules_of m =
    if m == 1
    then module_with (codes "Camera") [] (port_to 0)
    else if m == 2
    then module_with (codes "Blob") (port_to 0) []
    else module_with [] [] []

abbrev pub streams_of : ℕ → Stream
streams_of s =
    if s == 0
    then record { format = codes "IplImage"; content = none; observers = 2 ∷ [] }
    else record { format = []; content = none; observers = [] }

abbrev pub two : World
two = record {
  modules = modules_of;
  streams = streams_of;
  next_module = 3;
  next_stream = 1;
  idcount = 0;
  pipeline = 0;
  elements = 1 ∷ 2 ∷ [];
  is_group = false;
  last_internal_error = [];
  database = [];
  freed = [];
  clock = λ n. n;
  ticks = 0;
  delay = pos 5;
  want_quit = false;
  events = [];
}
