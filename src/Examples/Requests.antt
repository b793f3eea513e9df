-- ===== src/Examples/Requests.antt =====
-- The theorems on requests and pipeline files, on two connected modules. A query is a list of
-- headers, of which a removal takes the first of the name.
use movid.Base.{
  ◌≡◌, refl, Text, pos, none, some, List, [], ◌∷◌, ◌++◌, codes, text_eq, if◌then◌else◌, length, All,
}
use movid.Base.Dict.{find, text_key, int_key}
use movid.World.{World}
use movid.Module.Ports.{set_input}
use movid.Module.Properties.{id_of, property}
use movid.Property.{Property, integer, as_string, convert_to_string, new_property}
use movid.Number.{print_int}
use movid.Utils.{mem}
use movid.Utils.Split.{split}
use movid.Utils.Words.{words}
use movid.Pipeline.{get_module_by_id}
use movid.Pipeline.Parse.{parse, parse_line, resume, run_set, run_create, start_state}
use movid.Pipeline.Serialize.{create_line, creation_line}
use movid.Pipeline.Serialize.Lines.{IsWord, parse_line-creation_line, parse_line-create}
use movid.Web.{
  Http, message, web_error, web_pipeline_connect, connect_reply, web_pipeline_get,
  web_pipeline_remove,
}
use movid.Web.Dispatch.{Request, pipeline_connect, pipeline_get, serve}
use movid.Web.Json.{web_pipeline_stats}
use movid.Web.Session.{answers, stats, begun, and_then, Session-IsValid}
use movid.Web.Errors.{serve-web_error}
use movid.Web.Remove.{Removed, web_pipeline_remove-IsValid}
use movid.Valid.{IsValid}
use movid.Valid.Parse.{LeavesOr, Leaves}
use movid.Valid.Parse.Lines.{parse-Leaves}
use movid.Valid.Parse.Calm.{IsPlain, parse_plain}
use movid.Examples.Objects.{whole, two}
use movid.Examples.Connections.{two-IsValid}

abbrev Query : Type 0
Query = List (Text × Text)

unfoldable header_of : List Text → Query
header_of (k ∷ v ∷ []) = (k, v) ∷ []
header_of _ = []

unfoldable headers_of : List Text → Query
unfolding header_of
headers_of [] = []
headers_of (w ∷ ws) = header_of (split (codes "=") w) ++ headers_of ws

unfoldable after_mark : List Text → Query
unfolding headers_of
after_mark (path ∷ query ∷ []) = headers_of (split (codes "&") query)
after_mark _ = []

unfoldable take_out : Text → Query → Query
take_out k [] = []
take_out k ((j, v) ∷ q) = if text_eq j k then q else (j, v) ∷ take_out k q

instance abbrev query_http : Http
query_http = record {
  Headers = Query;
  parse_query = λ uri. after_mark (split (codes "?") uri);
  find_header = λ k q. find k q;
  remove_header = take_out;
  count_headers = length;
}

abbrev disconnect_blob : Request
disconnect_blob = pipeline_connect (some (codes "/pipeline/connect?out=NULL&in=Blob"))

blob_found : get_module_by_id (codes "Blob") two ≡ some 2
unfolding get_module_by_id id_of property convert_to_string find text_eq new_property
blob_found = refl

disconnect_blob_runs :
    serve disconnect_blob two ≡ some (message (codes "ok"), set_input 2 (pos 0) none two)
unfolding serve web_pipeline_connect connect_reply split mem after_mark find text_eq
    get_module_by_id id_of property convert_to_string new_property
disconnect_blob_runs = refl

Session-IsValid_example : IsValid (web_pipeline_stats (set_input 2 (pos 0) none two)).1
Session-IsValid_example =
    Session-IsValid
      (and_then (and_then begun (answers disconnect_blob disconnect_blob_runs)) (stats refl))
      two-IsValid

abbrev remove_camera : Text
remove_camera = codes "/pipeline/remove?objectname=Camera"

camera_found : get_module_by_id (codes "Camera") two ≡ some 1
unfolding get_module_by_id id_of property convert_to_string find text_eq new_property
camera_found = refl

camera_named :
    find (codes "objectname") (after_mark (split (codes "?") remove_camera)) ≡ some (codes "Camera")
unfolding after_mark split mem find text_eq
camera_named = refl

web_pipeline_remove-IsValid_example :
    (v : World) × (web_pipeline_remove (some remove_camera) two ≡ some (message (codes "ok"), v))
    × Removed 1 two v
web_pipeline_remove-IsValid_example =
    web_pipeline_remove-IsValid remove_camera (codes "Camera") 1 two two-IsValid camera_named
      camera_found

abbrev get_nothing : Request
get_nothing = pipeline_get (some (codes "/pipeline/get?objectname=Camera"))

get_nothing_runs : serve get_nothing two ≡ some (web_error (codes "missing name"), two)
unfolding serve web_pipeline_get after_mark split mem find text_eq
get_nothing_runs = refl

serve-web_error_example : two ≡ two
serve-web_error_example =
    serve-web_error get_nothing two two (codes "missing name") get_nothing_runs

abbrev script : Text
script = codes "config delay 5\npipeline set Camera path x\n"

parse-Leaves_example : LeavesOr Unit IsValid (parse (some script) two)
parse-Leaves_example = parse-Leaves (some script) two two-IsValid

script-IsPlain : All IsPlain (split (codes "\n") script)
unfolding split mem words text_eq
script-IsPlain = (refl, (refl, (refl, tt)))

parse_plain_example : Leaves IsValid (parse (some script) two)
parse_plain_example = parse_plain script two two-IsValid script-IsPlain

abbrev threshold : Property
threshold = new_property (integer (pos 4)) []

camera-IsWord : IsWord (codes "Camera")
unfolding mem
camera-IsWord = (refl, λ e. cc)

key-IsWord : IsWord (codes "threshold")
unfolding mem
key-IsWord = (refl, λ e. cc)

threshold-IsWord : IsWord (as_string threshold)
unfolding mem new_property convert_to_string print_int
threshold-IsWord = (refl, λ e. cc)

parse_line-creation_line_example :
    parse_line (creation_line (codes "Camera") (codes "threshold") threshold) (start_state two)
    ≡ resume
        (start_state two)
        (run_set (codes "Camera") (codes "threshold") (as_string threshold) two)
unfolding new_property
parse_line-creation_line_example =
    parse_line-creation_line (codes "Camera") (codes "threshold") threshold (start_state two)
      camera-IsWord key-IsWord threshold-IsWord refl refl

name-IsWord : IsWord (two.modules 1).name
unfolding mem
name-IsWord = (refl, λ e. cc)

id-IsWord : IsWord (id_of 1 two)
unfolding mem id_of property convert_to_string find text_eq new_property
id-IsWord = (refl, λ e. cc)

parse_line-create_example :
    parse_line (create_line 1 two) (start_state two)
    ≡ resume (start_state two) (run_create (two.modules 1).name (id_of 1 two) two)
parse_line-create_example = parse_line-create 1 two (start_state two) name-IsWord id-IsWord refl
