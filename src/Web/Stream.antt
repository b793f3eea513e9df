-- ===== src/Web/Stream.antt =====
-- src/movid.cpp: `otStreamModule` and `web_pipeline_stream`, which connects a module of that class
-- to an output and streams what arrives there.
use movid.Base.{
  ℕ, suc, Text, ℤ, pos, Bool, true, false, not, Option, none, some, [], ◌∷◌, if◌then◌else◌, codes,
  ltb_ℤ, ◌||◌,
}
use movid.Base.Dict.{insert, text_key, int_key}
use movid.Float.{Floats}
use movid.Utils.{◌>>=◌}
use movid.Property.{integer, string, bool, new_property}
use movid.World.{Info, Module, World, write_module, write_stream}
use movid.DataStream.{new_stream}
use movid.Module.Ports.{get_output, get_output_count, set_input}
use movid.Module.Properties.{set_property}
use movid.Factory.{create_id, zero_stats, feedback_property}
use movid.Web.{Http, web_error, stream_start, Handled, reply, with_query, with_object, index_of}

module _ ⦃F : Floats⦄ where
  abbrev pub stream_info : Info
  stream_info = record {
    name = codes "stream";
    type = codes "IplImage,IplImage8";
    description = codes "Image to stream on webbrowser";
  }

  -- The module `otStreamModule`, whose input holds a stream of its own.
  unfoldable pub stream_module : ℕ → Text → ℕ → Module
  stream_module m id s = record {
    name = codes "Stream";
    capabilities = 1;
    is_started = false;
    is_internal = true;
    is_error = false;
    error_msg = [];
    thread = false;
    use_thread = false;
    need_update = false;
    thread_trigger = false;
    need_gui_build = false;
    owner = none;
    inputs = (pos 0, record { stream = some s; info = stream_info }) ∷ [];
    outputs = [];
    properties = insert (codes "scale") (new_property (integer (pos 1)) []) (
        insert (codes "id") (new_property (string id) []) (
          insert (codes "gui_feedback") (feedback_property m)
            (insert (codes "use_thread") (new_property (bool false) []) [])));
    gui = [];
    stats = zero_stats;
  }

  unfoldable pub construct_stream : World → ℕ × World
  unfolding stream_module
  construct_stream w =
      let (id, w') = create_id (codes "WebStream") w in
      let m = w.next_module in
      let s = w.next_stream in
      (
        m,
        write_module m (stream_module m id s) (
            write_stream s (new_stream (codes "stream"))
              (record w' { next_module = suc m; next_stream = suc s })),
      )

  abbrev pub set_if_there : ℕ → Text → Option Text → World → Option World
  set_if_there m key none w = some w
  set_if_there m key (some v) w = set_property m key v w

  -- The index is checked against the outputs.
  abbrev pub is_output : ℤ → ℕ → World → Bool
  is_output n m w = not (ltb_ℤ n (pos 0) || not (ltb_ℤ n (pos (get_output_count m w))))

module _ ⦃F : Floats⦄ ⦃H : Http⦄ where
  unfoldable pub web_pipeline_stream : Option Text → World → Handled
  unfolding construct_stream
  web_pipeline_stream uri w = with_query uri λ h. with_object h w λ m.
      let idx = index_of (H.find_header (codes "index") h) in
      if not (is_output idx m w) then reply (web_error (codes "invalid index")) w else (do
        let made = construct_stream w
        w' ← set_if_there made.0 (codes "scale") (H.find_header (codes "scale") h) made.1
        reply stream_start (set_input made.0 (pos 0) (get_output m idx w') w'))
