-- ===== src/Web/Total.antt =====
-- The handlers of src/movid.cpp always answer: their loops end and no `assert` fails.
use movid.Base.{◌<◌, ◌≤◌, ◌≡◌, Text, true, none, some, is_some}
use movid.Float.{Floats}
use movid.World.{World}
use movid.Web.{Http, Handled}
use movid.Web.Dispatch.{
  Request, pipeline_create, pipeline_remove, pipeline_connect, pipeline_set, pipeline_get,
  pipeline_gui, pipeline_start, pipeline_stop, pipeline_quit,
}

module _ ⦃F : Floats⦄ ⦃H : Http⦄ where
  open H use {Headers, find_header, remove_header, count_headers}

  -- What libevent documents: removing a header that is there leaves fewer, and removing one leaves
  -- no more.
  pub record RemovesHeaders : Type 0 where
    pub fewer :
        (name v : Text) (h : Headers)
        → find_header name h ≡ some v
        → count_headers (remove_header name h) < count_headers h
    pub no_more :
        (name : Text) (h : Headers) → count_headers (remove_header name h) ≤ count_headers h

  abbrev pub IsAnswered : Handled → Type 0
  IsAnswered none = ⊥
  IsAnswered (some a) = Unit

  -- The requests that carry the URI their handler reads. `pipeline_gui` is left out: it needs a
  -- module that has a GUI.
  abbrev pub IsComplete : Request → Type 0
  IsComplete (pipeline_create uri) = is_some uri ≡ true
  IsComplete (pipeline_remove uri) = is_some uri ≡ true
  IsComplete (pipeline_connect uri) = is_some uri ≡ true
  IsComplete (pipeline_set uri) = is_some uri ≡ true
  IsComplete (pipeline_get uri) = is_some uri ≡ true
  IsComplete (pipeline_gui uri) = ⊥
  IsComplete pipeline_start = Unit
  IsComplete pipeline_stop = Unit
  IsComplete pipeline_quit = Unit
