-- ===== src/Pipeline.antt =====
-- src/moPipeline.cpp: the ordered modules of the pipeline, what it passes on to them, its errors.
pub mod Parse
pub mod Serialize
use movid.Base.{
  ℕ, zero, suc, Text, ℤ, Bool, true, false, not, Option, none, some, List, [], ◌∷◌, ◌++◌,
  if◌then◌else◌, codes, text_eq, length, null, any, get_elem?, ◌||◌,
}
use movid.Float.{Floats}
use movid.World.{Info, Port, Module, World, write_module, own_destructor, emit}
use movid.DataStream.{erase}
use movid.Module.Ports.{get_input, get_output, get_input_count, get_output_count, set_input}
use movid.Module.Properties.{touch, id_of, have_error, get_last_error}
use movid.Module.Lifecycle
use movid.Module.Lifecycle.{start, stop, poll}

module _ ⦃F : Floats⦄ where
  -- `none` is a failed `assert` on an empty pipeline.
  unfoldable pub first_module : World → Option ℕ
  first_module w = get_elem? w.elements 0

  abbrev pub last_of : List ℕ → Option ℕ
  last_of [] = none
  last_of (m ∷ []) = some m
  last_of (m ∷ n ∷ ms) = last_of (n ∷ ms)

  unfoldable pub last_module : World → Option ℕ
  last_module w = last_of w.elements

  unfoldable pub add_element : ℕ → World → World
  add_element m w =
      write_module m (record (w.modules m) { owner = some w.pipeline })
        (record w { elements = w.elements ++ m ∷ [] })

  unfoldable pub remove_element : ℕ → World → World
  remove_element m w = record w { elements = erase m w.elements }

  unfoldable pub each : (ℕ → World → World) → List ℕ → World → World
  each f [] w = w
  each f (m ∷ ms) w = each f ms (f m w)

  unfoldable pub start_pipeline : World → World
  unfolding each start
  start_pipeline w = each start w.elements (start w.pipeline w)

  unfoldable pub stop_pipeline : World → World
  unfolding each stop
  stop_pipeline w = each stop w.elements (stop w.pipeline w)

  unfoldable pub poll_pipeline : World → World
  unfolding each poll
  poll_pipeline w = each poll w.elements w

  -- The destructor stops the module, and its maps are gone with it. What the destructor of the
  -- module class does first is an event: some classes delete the streams of their outputs.
  unfoldable pub delete_module : ℕ → World → World
  unfolding stop
  delete_module m w =
      let w' = stop m (emit (own_destructor m) w) in
      write_module m (record (w'.modules m) { inputs = []; outputs = []; properties = [] })
        (record w' { freed = m ∷ w'.freed })

  unfoldable pub clear : World → World
  unfolding stop_pipeline delete_module each
  clear w = let w' = stop_pipeline w in record (each delete_module w'.elements w') { elements = [] }

  abbrev pub size : World → ℕ
  size w = length w.elements

  -- `none` is a failed `assert`.
  unfoldable pub get_module : ℕ → World → Option ℕ
  get_module index w = get_elem? w.elements index

  -- The first module of the pipeline with that id, by reading the ids.
  unfoldable pub first_with_id : Text → List ℕ → World → Option ℕ
  first_with_id id [] w = none
  first_with_id id (m ∷ ms) w = if text_eq (id_of m w) id then some m else first_with_id id ms w

  unfoldable pub get_module_by_id : Text → World → Option ℕ
  unfolding first_with_id
  get_module_by_id id w = first_with_id id w.elements w

  -- The same search as the source runs it: `property("id")` creates an id that is not there.
  unfoldable pub search_from : Text → List ℕ → World → Option ℕ × World
  search_from id [] w = (none, w)
  search_from id (m ∷ ms) w =
      let seen = touch m (codes "id") w in
      let rest = search_from id ms seen in
      if text_eq (id_of m seen) id then (some m, seen) else rest

  unfoldable pub search_module_by_id : Text → World → Option ℕ × World
  unfolding search_from
  search_module_by_id id w = search_from id w.elements w

  abbrev pub any_error : List ℕ → World → Bool
  any_error ms w = any (λ m. have_error m w) ms

  unfoldable pub pipeline_have_error : World → Bool
  pipeline_have_error w = not (null w.last_internal_error) || any_error w.elements w

  unfoldable pub first_error : List ℕ → World → Text × World
  first_error [] w = ([], w)
  first_error (m ∷ ms) w = if have_error m w then get_last_error m w else first_error ms w

  unfoldable pub pipeline_get_last_error : World → Text × World
  unfolding first_error
  pipeline_get_last_error w =
      if not (null w.last_internal_error)
      then (w.last_internal_error, w)
      else first_error w.elements w

  abbrev pub is_pipeline_started : World → Bool
  is_pipeline_started w = (w.modules w.pipeline).is_started

  -- What the pipeline passes on to its first or its last module.
  unfoldable pub pipeline_set_input : ℤ → Option ℕ → World → Option World
  unfolding first_module
  pipeline_set_input n stream w = elim (first_module w) [
    | none ↦ none
    | some m ↦ some (set_input m n stream w)
  ]

  unfoldable pub pipeline_get_input : ℤ → World → Option (Option ℕ)
  unfolding last_module
  pipeline_get_input n w = elim (last_module w) [ none ↦ none | some m ↦ some (get_input m n w) ]

  unfoldable pub pipeline_get_output : ℤ → World → Option (Option ℕ)
  unfolding last_module
  pipeline_get_output n w = elim (last_module w) [ none ↦ none | some m ↦ some (get_output m n w) ]
