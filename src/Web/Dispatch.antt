-- ===== src/Web/Dispatch.antt =====
-- The requests that the web server of src/movid.cpp hands to the handlers that change the pipeline.
use movid.Base.{Text, Option}
use movid.Float.{Floats}
use movid.World.{World}
use movid.Web.{
  Http, Handled, web_pipeline_create, web_pipeline_connect, web_pipeline_get, web_pipeline_set,
  web_pipeline_gui, web_pipeline_remove, web_pipeline_start, web_pipeline_stop, web_pipeline_quit,
}

-- The path of the request, with its whole URI for the handlers that read it.
pub data Request : Type 0 where
  pipeline_create : Option Text → Request
  pipeline_remove : Option Text → Request
  pipeline_connect : Option Text → Request
  pipeline_set : Option Text → Request
  pipeline_get : Option Text → Request
  pipeline_gui : Option Text → Request
  pipeline_start : Request
  pipeline_stop : Request
  pipeline_quit : Request

module _ ⦃F : Floats⦄ ⦃H : Http⦄ where
  unfoldable pub serve : Request → World → Handled
  serve (pipeline_create uri) w = web_pipeline_create uri w
  serve (pipeline_remove uri) w = web_pipeline_remove uri w
  serve (pipeline_connect uri) w = web_pipeline_connect uri w
  serve (pipeline_set uri) w = web_pipeline_set uri w
  serve (pipeline_get uri) w = web_pipeline_get uri w
  serve (pipeline_gui uri) w = web_pipeline_gui uri w
  serve pipeline_start w = web_pipeline_start w
  serve pipeline_stop w = web_pipeline_stop w
  serve pipeline_quit w = web_pipeline_quit w
