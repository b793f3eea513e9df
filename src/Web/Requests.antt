-- ===== src/Web/Requests.antt =====
-- The handlers of src/movid.cpp keep the daemon's objects well formed.
use movid.Base.{
  ℕ, zero, suc, ◌<◌, refl, inl, inr, Text, ℤ, Bool, true, false, not, Option, none, some, List,
  codes, if◌then◌else◌, if-both, ◌&&◌, text_eq, Option-cases, is_some,
}
use movid.Float.{Floats}
use movid.Utils.{◌>>=◌}
use movid.World.{World, gui_build}
use movid.Module.Properties.{set_property}
use movid.Module.Lifecycle.{get_gui, has_gui}
use movid.Factory.{create}
use movid.Pipeline.{get_module_by_id, add_element}
use movid.Web.{
  Http, Reply, message, web_error, lines, reply, missing_objectname, object_not_found, output_of,
  connect_reply, set_loop, web_pipeline_create, web_pipeline_connect, web_pipeline_get,
  web_pipeline_set, web_pipeline_gui, web_pipeline_start, web_pipeline_stop, web_pipeline_quit,
  web_pipeline_remove,
}
use movid.Web.Dispatch.{
  Request, pipeline_create, pipeline_remove, pipeline_connect, pipeline_set, pipeline_get,
  pipeline_gui, pipeline_start, pipeline_stop, pipeline_quit, serve,
}
use movid.Web.Answers.{
  Answers, with_query-Answers, require-Answers, require_module-Answers, with_object-Answers,
  if-Answers,
}
use movid.Valid.{
  IsValid, IsQuiet, IsQuiet-IsValid, IsQuiet-refl, IsQuiet-trans, same-IsQuiet,
  write_module-IsQuiet,
}
use movid.Web.Disconnect.{delete-IsValid}
use movid.Web.Remove.{cut_out}
use movid.Valid.Ports.{IsOld, set_input-IsValid}
use movid.Valid.Quiet.{
  if-IsQuiet, emit-IsQuiet, touch-IsQuiet, set_property-IsQuiet, start_pipeline-IsQuiet,
  stop_pipeline-IsQuiet,
}
use movid.Valid.Create.{
  create-Created, add_element-IsValid, get_module_by_id_old, get_module_by_id-some,
  get_output-IsOld,
}

module _ ⦃F : Floats⦄ ⦃H : Http⦄ where
  open H use {Headers, find_header, remove_header}

  -- The world after the answer is well formed.
  abbrev pub Stays : Reply → World → Type 0
  Stays r v = IsValid v

  web_pipeline_create-Stays :
      (uri : Option Text) (w : World) → IsValid w → Answers Stays (web_pipeline_create uri w)
  unfolding web_pipeline_create
  web_pipeline_create-Stays uri w h = with_query-Answers Stays uri _ λ hs.
      require-Answers Stays (find_header (codes "objectname") hs) missing_objectname w _ h λ class.
        elim (Option-cases (create class w)) [
          | inl e ↦ rw e h
          | inr ((m, v), e) ↦
              let made = create-Created class w (m, v) h e in
              rw e (
                IsQuiet-IsValid (touch-IsQuiet m (codes "id") (add_element m v))
                  (add_element-IsValid m v made.1 made.3 made.0))
        ]

  output_of-IsOld : (o : Option ℕ) (n : ℤ) (w : World) → IsValid w → IsOld (output_of o n w) w
  output_of-IsOld none n w h = tt
  output_of-IsOld (some m) n w h = get_output-IsOld m n w h

  if-IsOld : (b : Bool) (x : Option ℕ) (w : World) → IsOld x w → IsOld (if b then none else x) w
  if-IsOld true x w h = tt
  if-IsOld false x w h = h

  connect_reply-Stays :
      (m : ℕ) (out : Option ℕ) (out_id : Text) (outidx inidx : ℤ) (w : World)
      → m < w.next_module
      → IsValid w
      → Answers Stays (connect_reply m out out_id outidx inidx w)
  unfolding connect_reply
  connect_reply-Stays m out out_id outidx inidx w old h =
      let is_null = text_eq out_id (codes "NULL") in
      if-Answers Stays (not (is_some out) && not is_null) _ _ h (
        set_input-IsValid m inidx (if is_null then none else output_of out outidx w) w old
          (if-IsOld is_null _ w (output_of-IsOld out outidx w h)) h)

  web_pipeline_connect-Stays :
      (uri : Option Text) (w : World) → IsValid w → Answers Stays (web_pipeline_connect uri w)
  unfolding web_pipeline_connect
  web_pipeline_connect-Stays uri w h = with_query-Answers Stays uri _ λ hs.
      require-Answers Stays (find_header (codes "out") hs) (web_error (codes "missing out")) w _ h
        λ out_id.
          require-Answers Stays (find_header (codes "in") hs) (web_error (codes "missing in")) w _ h
            λ in_id.
              require_module-Answers Stays (get_module_by_id in_id w)
                (web_error (codes "in object not found")) w _ h
                λ m found.
                  connect_reply-Stays m (get_module_by_id out_id w) out_id _ _ w
                    (get_module_by_id_old in_id w m h found) h

  web_pipeline_get-Stays :
      (uri : Option Text) (w : World) → IsValid w → Answers Stays (web_pipeline_get uri w)
  unfolding web_pipeline_get
  web_pipeline_get-Stays uri w h = with_query-Answers Stays uri _ λ hs.
      require-Answers Stays (find_header (codes "objectname") hs) missing_objectname w _ h λ id.
        require-Answers Stays (find_header (codes "name") hs) (web_error (codes "missing name")) w _
          h
          λ name.
            require_module-Answers Stays (get_module_by_id id w) object_not_found w _ h
              λ m found. IsQuiet-IsValid (touch-IsQuiet m name w) h

  -- Connections are the same in the world that is returned, if one is.
  abbrev QuietTo : World → Option World → Type 0
  QuietTo w none = Unit
  QuietTo w (some v) = IsQuiet w v

  bind-QuietTo :
      (w : World) (o : Option World) (k : World → Option World)
      → QuietTo w o
      → ((u : World) → QuietTo u (k u))
      → QuietTo w (do u ← o; k u)
  bind-QuietTo w none k q f = tt
  bind-QuietTo w (some u) k q f = compose (k u) (f u)
    where
      compose : (o : Option World) → QuietTo u o → QuietTo w o
      compose none r = tt
      compose (some v) r = IsQuiet-trans q r

  set_property-QuietTo :
      (m : ℕ) (key value : Text) (w : World) → QuietTo w (set_property m key value w)
  set_property-QuietTo m key value w = elim (Option-cases (set_property m key value w)) [
    | inl e ↦ rw e tt
    | inr (v, e) ↦ rw e (set_property-IsQuiet m key value w v e)
  ]

  set_loop-QuietTo : (f m : ℕ) (h : Headers) (w : World) → QuietTo w (set_loop f m h w)
  unfolding set_loop
  set_loop-QuietTo zero m h w = tt
  set_loop-QuietTo (suc f) m h w = elim (Option-cases (find_header (codes "name") h)) [
    | inl e ↦ rw (e, set_loop) (IsQuiet-refl w)
    | inr (name, e) ↦ elim (Option-cases (find_header (codes "value") h)) [
      | inl e2 ↦ rw (e, set_loop) (rw e2 (IsQuiet-refl w))
      | inr (value, e2) ↦
          rw (e, set_loop)
            (rw e2 (
              bind-QuietTo w (set_property m name value w) _ (set_property-QuietTo m name value w)
                (set_loop-QuietTo f m _)))
    ]
  ]

  answered-Stays :
      (r : Reply) (o : Option World) (w : World)
      → IsValid w
      → QuietTo w o
      → Answers Stays (do v ← o; reply r v)
  answered-Stays r none w h q = tt
  answered-Stays r (some v) w h q = IsQuiet-IsValid q h

  web_pipeline_set-Stays :
      (uri : Option Text) (w : World) → IsValid w → Answers Stays (web_pipeline_set uri w)
  unfolding web_pipeline_set
  web_pipeline_set-Stays uri w h = with_query-Answers Stays uri _ λ hs.
      with_object-Answers Stays hs w _ h h λ id m found.
        answered-Stays (message (codes "ok")) (set_loop (suc (H.count_headers hs)) m hs w) w h
          (set_loop-QuietTo (suc (H.count_headers hs)) m hs w)

  abbrev GuiQuiet : World → Option (List Text × World) → Type 0
  GuiQuiet w none = Unit
  GuiQuiet w (some g) = IsQuiet w g.1

  get_gui-GuiQuiet : (m : ℕ) (w : World) → GuiQuiet w (get_gui m w)
  unfolding get_gui
  get_gui-GuiQuiet m w =
      if-both (GuiQuiet w) (has_gui m w) _ none
        (if-IsQuiet ((w.modules m).need_gui_build)
          (IsQuiet-trans (write_module-IsQuiet m _ w refl refl) (emit-IsQuiet (gui_build m) _))
          (IsQuiet-refl w))
        tt

  gui-Stays :
      (o : Option (List Text × World)) (w : World)
      → IsValid w
      → GuiQuiet w o
      → Answers Stays (do gui ← o; reply (lines (gui.0)) (gui.1))
  gui-Stays none w h q = tt
  gui-Stays (some g) w h q = IsQuiet-IsValid q h

  web_pipeline_gui-Stays :
      (uri : Option Text) (w : World) → IsValid w → Answers Stays (web_pipeline_gui uri w)
  unfolding web_pipeline_gui
  web_pipeline_gui-Stays uri w h = with_query-Answers Stays uri _ λ hs.
      with_object-Answers Stays hs w _ h h
        λ id m found. gui-Stays (get_gui m w) w h (get_gui-GuiQuiet m w)

  web_pipeline_remove-Stays :
      (uri : Option Text) (w : World) → IsValid w → Answers Stays (web_pipeline_remove uri w)
  unfolding web_pipeline_remove
  web_pipeline_remove-Stays uri w h = with_query-Answers Stays uri _ λ hs.
      with_object-Answers Stays hs w _ h h λ id m found.
        let (v, ran, d, same) = cut_out m w h in
        rw ran (delete-IsValid m v (rw same (get_module_by_id-some id w m found).0) d)

  -- A request, whichever it is and whatever is wrong with it, leaves the objects well formed.
  pub serve-Stays : (q : Request) (w : World) → IsValid w → Answers Stays (serve q w)
  unfolding serve web_pipeline_start web_pipeline_stop web_pipeline_quit
  serve-Stays (pipeline_create uri) w h = web_pipeline_create-Stays uri w h
  serve-Stays (pipeline_remove uri) w h = web_pipeline_remove-Stays uri w h
  serve-Stays (pipeline_connect uri) w h = web_pipeline_connect-Stays uri w h
  serve-Stays (pipeline_set uri) w h = web_pipeline_set-Stays uri w h
  serve-Stays (pipeline_get uri) w h = web_pipeline_get-Stays uri w h
  serve-Stays (pipeline_gui uri) w h = web_pipeline_gui-Stays uri w h
  serve-Stays pipeline_start w h = IsQuiet-IsValid (start_pipeline-IsQuiet w) h
  serve-Stays pipeline_stop w h = IsQuiet-IsValid (stop_pipeline-IsQuiet w) h
  serve-Stays pipeline_quit w h =
      IsQuiet-IsValid (same-IsQuiet refl refl refl refl refl refl refl) h
