-- ===== src/Web/Session.antt =====
-- A session of the daemon of src/movid.cpp: requests, rounds of the main loop and pipeline files, in
-- any order.
use movid.Base.{
  ℕ, zero, suc, ◌≡◌, refl, subst, inl, inr, Text, Bool, not, Option, none, some, List, [], ◌∷◌,
  if-both, Bool-cases, null, ◌⊎◌,
}
use movid.Float.{Floats}
use movid.Utils.{◌>>=◌}
use movid.World.{World}
use movid.Module.Properties.{have_error}
use movid.Pipeline.{
  first_error, pipeline_get_last_error, pipeline_have_error, poll_pipeline, is_pipeline_started,
}
use movid.Pipeline.Parse.{Result, ok, error, fault, parse}
use movid.Daemon.{drain_errors, main_round}
use movid.Web.{Http, Reply, Handled}
use movid.Web.Json.{Json, web_pipeline_stats, web_pipeline_status}
use movid.Web.Json.Classes.{web_factory_list, web_factory_describe}
use movid.Web.Json.Keeps.{
  web_pipeline_stats-IsValid, web_pipeline_status-IsValid, web_factory_list-IsValid,
  web_factory_describe-IsValid,
}
use movid.Web.Dispatch.{Request, serve}
use movid.Web.Answers.{Answers}
use movid.Web.Requests.{Stays, serve-Stays}
use movid.Valid.{IsValid, IsQuiet, IsQuiet-IsValid, IsQuiet-refl, IsQuiet-trans, same-IsQuiet}
use movid.Valid.Quiet.{get_last_error-IsQuiet, poll_pipeline-IsQuiet}
use movid.Module.Ports.{set_error}
use movid.Module.Lifecycle.{notify_update}
use movid.DataStream.{push}
use movid.Valid.Ports.{set_error-IsQuiet}
use movid.Valid.Calls.{notify_update-IsQuiet, push-IsQuiet}
use movid.Valid.Parse.{LeavesOr}
use movid.Valid.Parse.Lines.{parse-Leaves}

module _ ⦃F : Floats⦄ where
  first_error-IsQuiet : (ms : List ℕ) (w : World) → IsQuiet w ((first_error ms w).1)
  unfolding first_error
  first_error-IsQuiet [] w = IsQuiet-refl w
  first_error-IsQuiet (m ∷ ms) w =
      if-both (λ (r : Text × World). IsQuiet w (r.1)) (have_error m w) _ _
        (get_last_error-IsQuiet m w) (first_error-IsQuiet ms w)

  pipeline_get_last_error-IsQuiet : (w : World) → IsQuiet w ((pipeline_get_last_error w).1)
  unfolding pipeline_get_last_error
  pipeline_get_last_error-IsQuiet w =
      if-both (λ (r : Text × World). IsQuiet w (r.1)) (not (null w.last_internal_error)) _ _
        (IsQuiet-refl w) (first_error-IsQuiet w.elements w)

  abbrev LogQuiet : World → Option (List Text × World) → Type 0
  LogQuiet w none = Unit
  LogQuiet w (some r) = IsQuiet w r.1

  logged-LogQuiet :
      (w u : World) (msg : Text) (o : Option (List Text × World))
      → IsQuiet w u
      → LogQuiet u o
      → LogQuiet w (do rest ← o; some (msg ∷ rest.0, rest.1))
  logged-LogQuiet w u msg none q h = tt
  logged-LogQuiet w u msg (some r) q h = IsQuiet-trans q h

  drain_errors-LogQuiet : (f : ℕ) (t : Bool) (w : World) → LogQuiet w (drain_errors f t w)
  unfolding drain_errors
  drain_errors-LogQuiet zero t w = tt
  drain_errors-LogQuiet (suc f) t w = elim (Bool-cases (pipeline_have_error w)) [
    | inr e ↦ rw (e, drain_errors) (IsQuiet-refl w)
    | inl e ↦
        rw (e, drain_errors)
          (logged-LogQuiet w _ _ _
            (IsQuiet-trans (pipeline_get_last_error-IsQuiet w)
              (same-IsQuiet refl refl refl refl refl refl refl))
            (drain_errors-LogQuiet f t _))
  ]

  LogQuiet-trans :
      (w u : World) (o : Option (List Text × World)) → IsQuiet w u → LogQuiet u o → LogQuiet w o
  LogQuiet-trans w u none q h = tt
  LogQuiet-trans w u (some r) q h = IsQuiet-trans q h

  main_round-LogQuiet : (f : ℕ) (t : Bool) (w : World) → LogQuiet w (main_round f t w)
  unfolding main_round
  main_round-LogQuiet f t w =
      if-both (LogQuiet w) (is_pipeline_started w) _ (some ([], w))
        (LogQuiet-trans w (poll_pipeline w) (drain_errors f t (poll_pipeline w))
          (poll_pipeline-IsQuiet w) (drain_errors-LogQuiet f t (poll_pipeline w)))
        (IsQuiet-refl w)

module _ ⦃F : Floats⦄ ⦃H : Http⦄ where
  -- A request that is answered, with a text or a tree of cJSON, a round of the main loop, a pipeline
  -- file, at its end or at an error in it, or a call that the code of a module class makes of
  -- moModule or moDataStream: in its `start`, `poll` and `update`, in a callback, or in
  -- `notifyData`.
  pub data Serves : World → World → Type 0 where
    answers : (q : Request) {r : Reply} {w v : World} → serve q w ≡ some (r, v) → Serves w v
    polls :
        (f : ℕ) (test_mode : Bool) {log : List Text} {w v : World}
        → main_round f test_mode w ≡ some (log, v)
        → Serves w v
    reads : (file : Option Text) {w v : World} → parse file w ≡ ok v → Serves w v
    fails : (file : Option Text) {w v : World} → parse file w ≡ error v → Serves w v
    stats : {w v : World} → (web_pipeline_stats w).1 ≡ v → Serves w v
    status :
        (description author : Text → Text) {body : Json} {w v : World}
        → web_pipeline_status description author w ≡ some (body, v)
        → Serves w v
    lists :
        (description author : Text → Text) {body : Json} {w v : World}
        → web_factory_list description author w ≡ some (body, v)
        → Serves w v
    describes :
        (description author : Text → Text) (uri : Option Text) {body : Reply ⊎ Json} {w v : World}
        → web_factory_describe description author uri w ≡ some (body, v)
        → Serves w v
    notifies : (m : ℕ) {w v : World} → notify_update m w ≡ v → Serves w v
    reports : (m : ℕ) (msg : Text) {w v : World} → set_error m msg w ≡ v → Serves w v
    pushes : (s : ℕ) (content : Option ℕ) {w v : World} → push s content w ≡ v → Serves w v

  pub data Session (w : World) : World → Type 0 where
    begun : Session w w
    and_then : {u v : World} → Session w u → Serves u v → Session w v

  answered : (o : Handled) {r : Reply} {v : World} → Answers Stays o → o ≡ some (r, v) → IsValid v
  answered none h e = cc
  answered (some (r, u)) h e = let same : u ≡ _ = cc in subst IsValid same h

  logged :
      (o : Option (List Text × World)) {log : List Text} {w v : World}
      → LogQuiet w o
      → IsValid w
      → o ≡ some (log, v)
      → IsValid v
  logged none q h e = cc
  logged (some (l, u)) q h e = let same : u ≡ _ = cc in subst IsValid same (IsQuiet-IsValid q h)

  read : (r : Result) {v : World} → LeavesOr Unit IsValid r → r ≡ ok v → IsValid v
  read (ok u) h e = let same : u ≡ _ = cc in subst IsValid same h
  read (error u) h e = cc
  read fault h e = cc

  failed : (r : Result) {v : World} → LeavesOr Unit IsValid r → r ≡ error v → IsValid v
  failed (ok u) h e = cc
  failed (error u) h e = let same : u ≡ _ = cc in subst IsValid same h
  failed fault h e = cc

  Serves-IsValid : {w v : World} → Serves w v → IsValid w → IsValid v
  Serves-IsValid (answers q {w} e) h = answered (serve q w) (serve-Stays q w h) e
  Serves-IsValid (polls f t {w} e) h = logged _ (main_round-LogQuiet f t w) h e
  Serves-IsValid (reads file {w} e) h = read (parse file w) (parse-Leaves file w h) e
  Serves-IsValid (fails file {w} e) h = failed (parse file w) (parse-Leaves file w h) e
  Serves-IsValid (stats {w} e) h = subst IsValid e (web_pipeline_stats-IsValid w h)
  Serves-IsValid (status description author {body} {w} {v} e) h =
      web_pipeline_status-IsValid description author w (body, v) h e
  Serves-IsValid (lists description author {body} {w} {v} e) h =
      web_factory_list-IsValid description author w (body, v) h e
  Serves-IsValid (describes description author uri {body} {w} {v} e) h =
      web_factory_describe-IsValid description author uri w (body, v) h e
  Serves-IsValid (notifies m {w} e) h =
      subst IsValid e (IsQuiet-IsValid (notify_update-IsQuiet m w) h)
  Serves-IsValid (reports m msg {w} e) h =
      subst IsValid e (IsQuiet-IsValid (set_error-IsQuiet m msg w) h)
  Serves-IsValid (pushes s content {w} e) h =
      subst IsValid e (IsQuiet-IsValid (push-IsQuiet s content w) h)

  -- From a well-formed daemon, any sequence of answered requests to create, remove, connect, set,
  -- get, show the gui, start, stop or quit, to list or describe the module classes, or for the
  -- status or the statistics, of rounds of the main loop, of pipeline files, read to their end or
  -- to an error, and of what module classes do in code of their own, which is to ask for an update,
  -- to report an error and to push data, leaves it well formed: observers and inputs agree, inputs
  -- are numbered, what outputs refer to was allocated, and each module that the pipeline refers to
  -- was allocated, stands there once and is not deleted.
  pub Session-IsValid : {w v : World} → Session w v → IsValid w → IsValid v
  Session-IsValid begun h = h
  Session-IsValid (and_then s t) h = Serves-IsValid t (Session-IsValid s h)
