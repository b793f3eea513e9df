-- ===== src/Daemon.antt =====
-- src/movid.cpp: one round of the main loop.
pub mod Errors
use movid.Base.{
  ℕ, zero, suc, Text, Bool, true, false, Option, none, some, List, [], ◌∷◌, ◌++◌, if◌then◌else◌,
  length,
}
use movid.Float.{Floats}
use movid.Utils.{◌>>=◌}
use movid.World.{Module, World}
use movid.Pipeline.{
  pipeline_have_error, pipeline_get_last_error, poll_pipeline, is_pipeline_started,
}

module _ ⦃F : Floats⦄ where
  -- `while ( pipeline->haveError() )`, by fuel: the messages logged, and the world after them
  unfoldable pub drain_errors : ℕ → Bool → World → Option (List Text × World)
  drain_errors zero test_mode w = none
  drain_errors (suc f) test_mode w = elim (pipeline_have_error w) [
    | false ↦ some ([], w)
    | true ↦
        let (msg, w1) = pipeline_get_last_error w in
        let w2 = record w1 { want_quit = if test_mode then true else w1.want_quit } in
        (do rest ← drain_errors f test_mode w2; some (msg ∷ rest.0, rest.1))
  ]

  -- A round of the main loop, without the web server's callbacks, when it is not told to quit.
  unfoldable pub main_round : ℕ → Bool → World → Option (List Text × World)
  unfolding drain_errors
  main_round f test_mode w =
      if is_pipeline_started w then drain_errors f test_mode (poll_pipeline w) else some ([], w)
