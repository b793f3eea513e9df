-- ===== src/Web/Remove.antt =====
-- `web_pipeline_remove` of src/movid.cpp: what is left of a module that is taken out.
use movid.Base.{ℕ, ◌<◌, ◌≡◌, ap, ◌∙◌, Text, pos, some, [], arith, length, codes}
use movid.Base.Dict.{find, int_key}
use movid.Float.{Floats}
use movid.World.{World}
use movid.DataStream.{erase}
use movid.Module.Ports.{stream_of, get_output, get_output_count}
use movid.Module.Lifecycle.{stop}
use movid.Pipeline.{get_module_by_id, stop_pipeline, remove_element, delete_module}
use movid.Valid.{IsValid, IsQuiet, IsQuiet-IsValid, IsQuiet-trans}
use movid.Module.Links.{count}
use movid.Valid.Create.{get_module_by_id-some}
use movid.Valid.Quiet.{stop-IsQuiet, stop_pipeline-IsQuiet}
use movid.Valid.Remove.{IsDetached, Frees}
use movid.Web.Disconnect.{Emptied, disconnect_module-IsDetached, delete-IsValid}
use movid.Web.{Http, message, disconnect_module, web_pipeline_remove}

module _ ⦃F : Floats⦄ ⦃H : Http⦄ where
  -- Once everything is stopped, the module is taken off its streams.
  pub cut_out :
      (m : ℕ) (w : World)
      → IsValid w
      → (v : World) × (disconnect_module m (stop m (stop_pipeline w)) ≡ some v)
        × IsDetached m v
        × (v.elements ≡ w.elements)
  cut_out m w h =
      let q = IsQuiet-trans (stop_pipeline-IsQuiet w) (stop-IsQuiet m (stop_pipeline w)) in
      let (v, ran, left) = disconnect_module-IsDetached m _ (IsQuiet-IsValid q h) in
      (v, ran, left.0, left.1.same_elements ∙ q.same_elements)

  -- What a removal leaves.
  abbrev pub Removed : ℕ → World → World → Type 0
  Removed m w v =
      IsValid v
      × (v.elements ≡ erase m w.elements)
      × ((v.modules m).inputs ≡ [])
      × ((j s : ℕ)
          → j < get_output_count m w
          → get_output m (pos j) w ≡ some s
          → (v.streams s).observers ≡ [])

  removed_lem :
      (m : ℕ) (w u v : World)
      → 0 < count m w.elements
      → IsQuiet w u
      → IsDetached m v × Frees u v × Emptied m (get_output_count m u) 0 v
      → Removed m w (delete_module m (remove_element m v))
  unfolding delete_module stop remove_element
  removed_lem m w u v there q (d, f, e) = (
    delete-IsValid m v (rw (f.same_elements, q.same_elements) there) d,
    ap (erase m) (f.same_elements ∙ q.same_elements),
    ground arith,
    λ j s k o.
        e j s (omega arith) (omega (arith, k, ap length (q.same_outputs m)))
          (ap (λ ps. stream_of (find (pos j) ps)) (f.same_outputs m ∙ q.same_outputs m) ∙ o),
  )

  -- In a well-formed daemon, a request to remove a module that has the id it names ends and
  -- replies ok, however the module is connected: the objects are well formed again, the first
  -- entry of the module is out of the pipeline, it holds no stream, and the stream of each of its
  -- outputs numbered below their count has no observer.
  pub web_pipeline_remove-IsValid :
      (uri id : Text) (m : ℕ) (w : World)
      → IsValid w
      → H.find_header (codes "objectname") (H.parse_query uri) ≡ some id
      → get_module_by_id id w ≡ some m
      → (v : World) × (web_pipeline_remove (some uri) w ≡ some (message (codes "ok"), v))
        × Removed m w v
  unfolding web_pipeline_remove
  web_pipeline_remove-IsValid uri id m w h e found =
      let u = stop m (stop_pipeline w) in
      let q : IsQuiet w u =
        IsQuiet-trans (stop_pipeline-IsQuiet w) (stop-IsQuiet m (stop_pipeline w)) in
      let (v, ran, left) = disconnect_module-IsDetached m u (IsQuiet-IsValid q h) in
      (
        delete_module m (remove_element m v),
        rw (e, found, ran),
        removed_lem m w u v (get_module_by_id-some id w m found).0 q left,
      )
