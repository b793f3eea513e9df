-- ===== src/Web.antt =====
-- src/movid.cpp: the handlers of the web server that change the daemon's state. libevent, which
-- parses the query of a request, is an interface.
pub mod Answers
pub mod Disconnect
pub mod Remove
pub mod Dispatch
pub mod Requests
pub mod Errors
pub mod Session
pub mod Search
pub mod Total
pub mod Stream
pub mod File
pub mod Json
use movid.Base.{
  ℕ, zero, suc, ◌+◌, ◌<◌, ◌≡◌, Text, ℤ, pos, negsuc, Bool, true, false, not, Option, none, some,
  List, [], ◌∷◌, ◌++◌, if◌then◌else◌, codes, text_eq, length, ltb_ℤ, ◌||◌, ◌&&◌, is_some,
}
use movid.Base.Dict.{Dict, find, insert, text_key, int_key}
use movid.Float.{Floats}
use movid.Number.{atoi, print_int, print_nat}
use movid.Utils.{◌>>=◌}
use movid.Property.{integer, string, bool, new_property, as_string}
use movid.World.{Info, Port, Module, World, write_module, write_stream}
use movid.DataStream.{new_stream, remove_observer}
use movid.Module.Ports.{
  get_input, get_output, get_input_count, get_output_count, set_input, remove_observers,
}
use movid.Module.Properties.{property, touch, id_of, set_property}
use movid.Module.Lifecycle.{stop, get_gui}
use movid.Factory.{create, create_id, zero_stats, base_properties}
use movid.Pipeline.{
  get_module_by_id, add_element, remove_element, start_pipeline, stop_pipeline, delete_module,
  clear,
}
use movid.Pipeline.Parse.{Result, ok, error, fault, parse}
use movid.Pipeline.Serialize.{serialize_pipeline}

-- The headers that libevent makes of a query, by name.
pub record Http : Type 1 where
  pub Headers : Type 0
  pub parse_query : Text → Headers
  pub find_header : Text → Headers → Option Text
  pub remove_header : Text → Headers → Headers
  pub count_headers : Headers → ℕ

-- What a handler sends.
pub data Reply : Type 0 where
  -- `web_message` with success 1, and `web_error`
  message : Text → Reply
  web_error : Text → Reply
  -- text/plain, line by line or whole
  lines : List Text → Reply
  plain : Text → Reply
  download : Text → Reply
  stream_start : Reply

-- MO_SLOTDIR, the index and MO_SLOTEXT
abbrev pub slot_file : ℤ → Text
slot_file n = codes "presets/slots/slot-" ++ (print_int n ++ codes ".txt")

abbrev pub is_slot : ℤ → Bool
is_slot n = not (ltb_ℤ n (pos 1) || ltb_ℤ (pos 10) n)

module _ ⦃F : Floats⦄ where
  -- The streams of the inputs, or outputs, `i` on, of which `k` are left.
  unfoldable pub forget_inputs : ℕ → ℕ → ℕ → World → World
  forget_inputs m zero i w = w
  forget_inputs m (suc k) i w = elim (get_input m (pos i) w) [
    | none ↦ forget_inputs m k (suc i) w
    | some s ↦ forget_inputs m k (suc i) (remove_observer s m w)
  ]

  unfoldable pub free_outputs : ℕ → ℕ → ℕ → World → Option World
  free_outputs m zero i w = some w
  free_outputs m (suc k) i w = elim (get_output m (pos i) w) [
    | none ↦ free_outputs m k (suc i) w
    | some s ↦ (do w' ← remove_observers s w; free_outputs m k (suc i) w')
  ]

  unfoldable pub disconnect_module : ℕ → World → Option World
  unfolding forget_inputs free_outputs
  disconnect_module m w =
      let w' = forget_inputs m (get_input_count m w) 0 w in
      free_outputs m (get_output_count m w') 0 w'

module _ ⦃F : Floats⦄ ⦃H : Http⦄ where
  open H use {Headers, find_header, remove_header}

  -- `none` is undefined behaviour, a failed `assert`, or the end of the fuel.
  abbrev pub Handled : Type 0
  Handled = Option (Reply × World)

  abbrev pub reply : Reply → World → Handled
  reply r w = some (r, w)

  -- The headers of a request. Without a URI the handlers clear headers that they never set.
  abbrev pub with_query : Option Text → (Headers → Handled) → Handled
  with_query none k = none
  with_query (some uri) k = k (H.parse_query uri)

  -- A header that the request must have.
  abbrev pub require : Option Text → Reply → World → (Text → Handled) → Handled
  require none missing w k = reply missing w
  require (some v) missing w k = k v

  abbrev pub require_module : Option ℕ → Reply → World → (ℕ → Handled) → Handled
  require_module none missing w k = reply missing w
  require_module (some m) missing w k = k m

  abbrev pub index_of : Option Text → ℤ
  index_of none = pos 0
  index_of (some s) = atoi s

  abbrev pub missing_objectname : Reply
  missing_objectname = web_error (codes "missing objectname")

  abbrev pub object_not_found : Reply
  object_not_found = web_error (codes "object not found")

  -- The start of most handlers: the module that the request names.
  abbrev pub with_object : Headers → World → (ℕ → Handled) → Handled
  with_object h w k =
      require (find_header (codes "objectname") h) missing_objectname w
        λ id. require_module (get_module_by_id id w) object_not_found w k

  unfoldable pub web_pipeline_create : Option Text → World → Handled
  web_pipeline_create uri w = with_query uri λ h.
      require (find_header (codes "objectname") h) missing_objectname w λ class.
        elim (create class w) [
          | none ↦ reply (web_error (codes "invalid objectname")) w
          | some (m, w') ↦
              let w2 = add_element m w' in reply (message (id_of m w2)) (touch m (codes "id") w2)
        ]

  abbrev pub output_of : Option ℕ → ℤ → World → Option ℕ
  output_of none n w = none
  output_of (some m) n w = get_output m n w

  -- Whatever `setInput` made of it, the reply is "ok".
  unfoldable pub connect_reply : ℕ → Option ℕ → Text → ℤ → ℤ → World → Handled
  connect_reply m out out_id outidx inidx w =
      let is_null = text_eq out_id (codes "NULL") in
      if not (is_some out) && not is_null
      then reply (web_error (codes "out object not found")) w
      else reply (message (codes "ok"))
          (set_input m inidx (if is_null then none else output_of out outidx w) w)

  unfoldable pub web_pipeline_connect : Option Text → World → Handled
  unfolding connect_reply
  web_pipeline_connect uri w = with_query uri λ h.
      require (find_header (codes "out") h) (web_error (codes "missing out")) w λ out_id.
        require (find_header (codes "in") h) (web_error (codes "missing in")) w λ in_id.
          require_module (get_module_by_id in_id w) (web_error (codes "in object not found")) w λ m.
            connect_reply m (get_module_by_id out_id w) out_id
              (index_of (find_header (codes "outidx") h)) (index_of (find_header (codes "inidx") h))
              w

  -- Reading a property creates it where it is missing.
  unfoldable pub web_pipeline_get : Option Text → World → Handled
  web_pipeline_get uri w = with_query uri λ h.
      require (find_header (codes "objectname") h) missing_objectname w λ id.
        require (find_header (codes "name") h) (web_error (codes "missing name")) w λ name.
          require_module (get_module_by_id id w) object_not_found w
            λ m. reply (message (as_string (property m name w))) (touch m name w)

  -- `while ( true )` over the pairs of `name` and `value`, by fuel
  unfoldable pub set_loop : ℕ → ℕ → Headers → World → Option World
  set_loop zero m h w = none
  set_loop (suc f) m h w = elim (find_header (codes "name") h) [
    | none ↦ some w
    | some name ↦ elim (find_header (codes "value") h) [
      | none ↦ some w
      | some value ↦ (do
        w' ← set_property m name value w
        set_loop f m (remove_header (codes "value") (remove_header (codes "name") h)) w')
    ]
  ]

  unfoldable pub web_pipeline_set : Option Text → World → Handled
  unfolding set_loop
  web_pipeline_set uri w = with_query uri λ h.
      with_object h w
        λ m. do w' ← set_loop (suc (H.count_headers h)) m h w; reply (message (codes "ok")) w'

  unfoldable pub web_pipeline_remove : Option Text → World → Handled
  unfolding disconnect_module
  web_pipeline_remove uri w = with_query uri λ h. with_object h w λ m. do
    w' ← disconnect_module m (stop m (stop_pipeline w))
    reply (message (codes "ok")) (delete_module m (remove_element m w'))

  unfoldable pub web_pipeline_gui : Option Text → World → Handled
  web_pipeline_gui uri w =
      with_query uri λ h. with_object h w λ m. do gui ← get_gui m w; reply (lines (gui.0)) (gui.1)

  unfoldable pub web_pipeline_start : World → Handled
  web_pipeline_start w = reply (message (codes "ok")) (start_pipeline w)

  unfoldable pub web_pipeline_stop : World → Handled
  web_pipeline_stop w = reply (message (codes "ok")) (stop_pipeline w)

  unfoldable pub web_pipeline_quit : World → Handled
  web_pipeline_quit w = reply (message (codes "bye")) (record w { want_quit = false })

  abbrev pub with_slot : Headers → World → (ℤ → Handled) → Handled
  with_slot h w k =
      require (find_header (codes "idx") h) (web_error (codes "missing idx")) w
        λ s. if is_slot (atoi s) then k (atoi s) else reply (web_error (codes "invalid idx")) w

  abbrev pub loaded : Result → Handled
  loaded (ok w) = reply (message (codes "ok")) w
  loaded (error w) = reply (web_error (codes "unable to parse slot")) w
  loaded fault = none

  -- `files` gives the text of a file that can be opened.
  unfoldable pub web_pipeline_slot_load : (Text → Option Text) → Option Text → World → Handled
  web_pipeline_slot_load files uri w =
      with_query uri λ h. with_slot h w λ n. loaded (parse (files (slot_file n)) (clear w))

  -- `writable` says whether the file can be opened for writing; nothing else changes.
  -- The reply, and the file with what is written to it.
  abbrev pub Saved : Type 0
  Saved = Option (Reply × Option (Text × Text))

  abbrev pub refuse : Text → Saved
  refuse s = some (web_error s, none)

  unfoldable pub web_pipeline_slot_save : Text → (Text → Bool) → Option Text → World → Saved
  web_pipeline_slot_save date writable none w = none
  web_pipeline_slot_save date writable (some uri) w =
      elim (find_header (codes "idx") (H.parse_query uri)) [
        | none ↦ refuse (codes "missing idx")
        | some s ↦
            let file = slot_file (atoi s) in
            if not (is_slot (atoi s))
            then refuse (codes "invalid idx")
            else if writable file
            then some (message (codes "ok"), some (file, serialize_pipeline date w))
            else refuse (codes "unable to open slot for writing")
      ]

  unfoldable pub web_pipeline_dump : Text → Option Text → World → Handled
  web_pipeline_dump date uri w = with_query uri λ h.
      reply
        (if is_some (find_header (codes "download") h)
          then download (serialize_pipeline date w)
          else plain (serialize_pipeline date w))
        w
