-- ===== src/Pipeline/Serialize.antt =====
-- `serializeCreation` and `serializeConnections` of src/moModule.cpp, and `serializeCreation` of
-- src/moPipeline.cpp: the text from which `parse` builds the pipeline again.
pub mod Lines
use movid.Base.{
  ℕ, zero, suc, Text, pos, Bool, true, false, Option, none, some, List, [], ◌∷◌, ◌++◌,
  if◌then◌else◌, codes, null,
}
use movid.Base.Dict.{Dict}
use movid.Float.{Floats}
use movid.Number.{print_int, print_nat}
use movid.Property.{Property, as_string}
use movid.World.{World}
use movid.Module.Ports.{get_output, get_output_count, get_input_index}
use movid.Module.Properties.{id_of}
use movid.Pipeline.Parse.{boundary}

-- `std::endl`
abbrev pub line : Text → Text
line s = s ++ 10 ∷ []

abbrev pub spaced : List Text → Text
spaced [] = []
spaced (w ∷ []) = w
spaced (w ∷ v ∷ ws) = w ++ (32 ∷ spaced (v ∷ ws))

module _ ⦃F : Floats⦄ where
  unfoldable pub creation_line : Text → Text → Property → Text
  creation_line id key p =
      if p.is_text
      then spaced (codes "pipeline" ∷ codes "settext" ∷ id ∷ key ∷ (id ++ (95 ∷ key)) ∷ [])
      else spaced (codes "pipeline" ∷ codes "set" ∷ id ∷ key ∷ as_string p ∷ [])

  unfoldable pub creation_lines : Text → Dict Text Property → Text
  unfolding creation_line
  creation_lines id [] = []
  creation_lines id ((key, p) ∷ ps) = line (creation_line id key p) ++ creation_lines id ps

  unfoldable pub data_lines : Text → Dict Text Property → Text
  data_lines id [] = []
  data_lines id ((key, p) ∷ ps) =
      let rest = data_lines id ps in
      if p.is_text
      then line (boundary ++ (32 ∷ (id ++ (95 ∷ key)))) ++ (line (as_string p) ++ rest)
      else rest

  -- The final boundary is there if the module has a text at all.
  unfoldable pub serialize_data : Text → Dict Text Property → Text
  unfolding data_lines
  serialize_data id ps = if null (data_lines id ps) then [] else data_lines id ps ++ line boundary

  unfoldable pub create_line : ℕ → World → Text
  create_line m w = spaced (codes "pipeline" ∷ codes "create" ∷ (w.modules m).name ∷ id_of m w ∷ [])

  unfoldable pub serialize_module : ℕ → Bool → World → Text
  unfolding create_line creation_lines serialize_data
  serialize_module m do_data w =
      let id = id_of m w in
      let ps = (w.modules m).properties in
      if do_data
      then serialize_data id ps
      else line (create_line m w) ++ (creation_lines id ps ++ line [])

  -- Connections to a module that is internal are not saved.
  unfoldable pub observer_lines : Text → ℕ → ℕ → List ℕ → World → Text
  observer_lines id i s [] w = []
  observer_lines id i s (o ∷ os) w =
      let rest = observer_lines id i s os w in
      let index = print_int (get_input_index o (some s) w) in
      if (w.modules o).is_internal
      then rest
      else line (
          spaced
            (codes "pipeline" ∷ codes "connect" ∷ id ∷ print_nat i ∷ id_of o w ∷ index ∷ [] ∷ []))
        ++ rest

  unfoldable pub output_lines : Text → ℕ → Option ℕ → World → Text
  unfolding observer_lines
  output_lines id i none w = []
  output_lines id i (some s) w = observer_lines id i s (w.streams s).observers w

  -- The outputs from `i` on, with `k` of them left.
  unfoldable pub connections_from : ℕ → ℕ → ℕ → World → Text
  unfolding output_lines
  connections_from m zero i w = []
  connections_from m (suc k) i w =
      output_lines (id_of m w) i (get_output m (pos i) w) w ++ connections_from m k (suc i) w

  unfoldable pub serialize_connections : ℕ → World → Text
  unfolding connections_from
  serialize_connections m w = connections_from m (get_output_count m w) 0 w

  unfoldable pub concat_each : (ℕ → Text) → List ℕ → Text
  concat_each f [] = []
  concat_each f (m ∷ ms) = f m ++ concat_each f ms

  -- `date` is what `strftime` prints.
  unfoldable pub serialize_pipeline : Text → World → Text
  unfolding serialize_module serialize_connections concat_each
  serialize_pipeline date w =
      line (codes "# ================================================================")
      ++ (line (codes "# PIPELINE AUTOGENERATED on " ++ date)
          ++ (line (codes "# ================================================================")
              ++ (line []
                  ++ (concat_each (λ m. serialize_module m false w) w.elements
                      ++ (concat_each (λ m. serialize_connections m w) w.elements
                          ++ concat_each (λ m. serialize_module m true w) w.elements)))))
