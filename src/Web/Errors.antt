-- ===== src/Web/Errors.antt =====
-- The error replies of the handlers of src/movid.cpp.
use movid.Base.{
  ℕ, suc, ◌≡◌, refl, inl, inr, subst, Text, ℤ, not, Option, none, some, List, codes, if◌then◌else◌,
  ◌&&◌, text_eq, Option-cases, is_some,
}
use movid.Float.{Floats}
use movid.Utils.{◌>>=◌}
use movid.World.{World}
use movid.Module.Ports.{set_input}
use movid.Module.Lifecycle.{get_gui}
use movid.Factory.{create}
use movid.Pipeline.{get_module_by_id}
use movid.Web.{
  Http, Reply, message, web_error, lines, Handled, reply, missing_objectname, object_not_found,
  output_of, connect_reply, web_pipeline_create, web_pipeline_connect, web_pipeline_get,
  web_pipeline_set, web_pipeline_gui, web_pipeline_remove, web_pipeline_start, web_pipeline_stop,
  web_pipeline_quit, set_loop,
}
use movid.Web.Dispatch.{
  Request, pipeline_create, pipeline_remove, pipeline_connect, pipeline_set, pipeline_get,
  pipeline_gui, pipeline_start, pipeline_stop, pipeline_quit, serve,
}
use movid.Web.Answers.{
  Answers, with_query-Answers, require-Answers, require_module-Answers, with_object-Answers,
  if-Answers,
}

module _ ⦃F : Floats⦄ ⦃H : Http⦄ where
  open H use {Headers, find_header}

  -- If the reply is an error, the world is the one before the request.
  abbrev Harmless : World → Reply → World → Type 0
  Harmless w (web_error msg) v = v ≡ w
  Harmless w _ v = Unit

  web_pipeline_create-Harmless :
      (uri : Option Text) (w : World) → Answers (Harmless w) (web_pipeline_create uri w)
  unfolding web_pipeline_create
  web_pipeline_create-Harmless uri w = with_query-Answers (Harmless w) uri _ λ hs.
      require-Answers (Harmless w) (find_header (codes "objectname") hs) missing_objectname w _ refl
        λ class. elim (Option-cases (create class w)) [ inl e ↦ rw e refl | inr (r, e) ↦ rw e tt ]

  connect_reply-Harmless :
      (m : ℕ) (out : Option ℕ) (out_id : Text) (outidx inidx : ℤ) (w : World)
      → Answers (Harmless w) (connect_reply m out out_id outidx inidx w)
  unfolding connect_reply
  connect_reply-Harmless m out out_id outidx inidx w =
      let is_null = text_eq out_id (codes "NULL") in
      if-Answers (Harmless w) (not (is_some out) && not is_null) _
        (reply (message (codes "ok"))
          (set_input m inidx (if is_null then none else output_of out outidx w) w))
        refl tt

  web_pipeline_connect-Harmless :
      (uri : Option Text) (w : World) → Answers (Harmless w) (web_pipeline_connect uri w)
  unfolding web_pipeline_connect
  web_pipeline_connect-Harmless uri w = with_query-Answers (Harmless w) uri _ λ hs.
      require-Answers (Harmless w) (find_header (codes "out") hs) (web_error (codes "missing out"))
        w _ refl
        λ out_id.
          require-Answers (Harmless w) (find_header (codes "in") hs)
            (web_error (codes "missing in")) w _ refl
            λ in_id.
              require_module-Answers (Harmless w) (get_module_by_id in_id w)
                (web_error (codes "in object not found")) w _ refl
                λ m found. connect_reply-Harmless m (get_module_by_id out_id w) out_id _ _ w

  web_pipeline_get-Harmless :
      (uri : Option Text) (w : World) → Answers (Harmless w) (web_pipeline_get uri w)
  unfolding web_pipeline_get
  web_pipeline_get-Harmless uri w = with_query-Answers (Harmless w) uri _ λ hs.
      require-Answers (Harmless w) (find_header (codes "objectname") hs) missing_objectname w _ refl
        λ id.
          require-Answers (Harmless w) (find_header (codes "name") hs)
            (web_error (codes "missing name")) w _ refl
            λ name.
              require_module-Answers (Harmless w) (get_module_by_id id w) object_not_found w _ refl
                λ m found. tt

  ok-Harmless :
      (w : World) (o : Option World)
      → Answers (Harmless w) (do v ← o; reply (message (codes "ok")) v)
  ok-Harmless w none = tt
  ok-Harmless w (some v) = tt

  web_pipeline_set-Harmless :
      (uri : Option Text) (w : World) → Answers (Harmless w) (web_pipeline_set uri w)
  unfolding web_pipeline_set
  web_pipeline_set-Harmless uri w = with_query-Answers (Harmless w) uri _ λ hs.
      with_object-Answers (Harmless w) hs w _ refl refl
        λ id m found. ok-Harmless w (set_loop (suc (H.count_headers hs)) m hs w)

  lines-Harmless :
      (w : World) (o : Option (List Text × World))
      → Answers (Harmless w) (do gui ← o; reply (lines (gui.0)) (gui.1))
  lines-Harmless w none = tt
  lines-Harmless w (some g) = tt

  web_pipeline_gui-Harmless :
      (uri : Option Text) (w : World) → Answers (Harmless w) (web_pipeline_gui uri w)
  unfolding web_pipeline_gui
  web_pipeline_gui-Harmless uri w = with_query-Answers (Harmless w) uri _ λ hs.
      with_object-Answers (Harmless w) hs w _ refl refl λ id m found. lines-Harmless w (get_gui m w)

  removed-Harmless :
      (w : World) (o : Option World) (f : World → World)
      → Answers (Harmless w) (do v ← o; reply (message (codes "ok")) (f v))
  removed-Harmless w none f = tt
  removed-Harmless w (some v) f = tt

  web_pipeline_remove-Harmless :
      (uri : Option Text) (w : World) → Answers (Harmless w) (web_pipeline_remove uri w)
  unfolding web_pipeline_remove
  web_pipeline_remove-Harmless uri w =
      with_query-Answers (Harmless w) uri _
        λ hs. with_object-Answers (Harmless w) hs w _ refl refl λ id m found. removed-Harmless w _ _

  serve-Harmless : (q : Request) (w : World) → Answers (Harmless w) (serve q w)
  unfolding serve web_pipeline_start web_pipeline_stop web_pipeline_quit
  serve-Harmless (pipeline_create uri) w = web_pipeline_create-Harmless uri w
  serve-Harmless (pipeline_remove uri) w = web_pipeline_remove-Harmless uri w
  serve-Harmless (pipeline_connect uri) w = web_pipeline_connect-Harmless uri w
  serve-Harmless (pipeline_set uri) w = web_pipeline_set-Harmless uri w
  serve-Harmless (pipeline_get uri) w = web_pipeline_get-Harmless uri w
  serve-Harmless (pipeline_gui uri) w = web_pipeline_gui-Harmless uri w
  serve-Harmless pipeline_start w = tt
  serve-Harmless pipeline_stop w = tt
  serve-Harmless pipeline_quit w = tt

  harmless_lem :
      (o : Handled) (w v : World) (msg : Text)
      → Answers (Harmless w) o
      → o ≡ some (web_error msg, v)
      → v ≡ w
  harmless_lem o w v msg h e = subst (Answers (Harmless w)) e h

  -- A request of Web/Dispatch that is answered with an error, whichever it is, has changed
  -- nothing of the daemon.
  pub serve-web_error :
      (q : Request) (w v : World) (msg : Text) → serve q w ≡ some (web_error msg, v) → v ≡ w
  serve-web_error q w v msg e = harmless_lem (serve q w) w v msg (serve-Harmless q w) e
