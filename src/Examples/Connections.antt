-- ===== src/Examples/Connections.antt =====
-- The theorems on connections, on two connected modules.
use movid.Base.{◌≢◌, ℕ, refl, [], ◌∷◌, map, codes, text_eq, ◌≡◌, pos, none, some, arith}
use movid.World.{World}
use movid.Base.Dict.{find}
use movid.Module.Ports.{set_input, remove_observers}
use movid.Module.Links.{count, ports_on, IsLinked}
use movid.Module.Disconnect.{IsFreed, remove_observers-IsFreed}
use movid.World.{ModuleClass}
use movid.Module.Contract.{Connects, set_input-Connects}
use movid.Factory.{create_id, short_name, create}
use movid.Factory.Ids.{after_ids, create_id_unique}
use movid.Factory.Names.{create-full_name}
use movid.Valid.{IsSound, IsValid}
use movid.Valid.Ports.{set_input-IsValid}
use movid.Valid.{Numbered}
use movid.Module.Properties.{id_of}
use movid.Web.Json.{Members, status_json, web_pipeline_status}
use movid.Pipeline.{get_module_by_id, search_module_by_id}
use movid.Web.Search.{search_module_by_id-Reads}
use movid.Web.Json.Reads.{Reads, names_of, web_pipeline_status-Reads}
use movid.Examples.Objects.{whole, image, two}

two-IsLinked : IsLinked two
two-IsLinked = record { counted = λ m s. unfold count ports_on in ground arith }

two-IsSound : IsSound two
two-IsSound = record {
  fresh_module = λ m s k. unfold ports_on in ground arith;
  fresh_stream = λ s k. ground arith;
  outputs_old = λ m n s e. unfold find in ground arith;
  elements_old = λ m k. unfold count in ground arith;
  numbered = λ m. ground arith;
  classes = λ name class e. unfold find in cc;
  once = λ m. unfold count in ground arith;
  freed_old = λ m k. unfold count in ground arith;
}

pub two-IsValid : IsValid two
two-IsValid = record { linked = two-IsLinked; sound = two-IsSound }

set_input-IsValid_example : IsValid (set_input 2 (pos 0) none two)
set_input-IsValid_example = set_input-IsValid 2 (pos 0) none two (omega arith) tt two-IsValid

remove_observers-IsFreed_example : (w : World) × (remove_observers 0 two ≡ some w) × IsFreed 0 w
remove_observers-IsFreed_example = remove_observers-IsFreed 0 two two-IsLinked

set_input-Connects_example :
    Connects 2 (pos 0) image (some 1) two (set_input 2 (pos 0) (some 1) two)
set_input-Connects_example =
    set_input-Connects 2 (pos 0) (some 1) two (record { stream = some 0; info = image })
      (unfold find in refl)

abbrev blob_class : ModuleClass
blob_class = record {
  class_name = codes "Blob";
  class_capabilities = 0;
  class_bases = [];
  class_properties = λ m. [];
  class_inputs = (pos 0, image) ∷ [];
  class_outputs = [];
}

abbrev with_blob : World
with_blob = record two { database = (codes "Blob", blob_class) ∷ [] }

create-full_name_example : create (codes "moBlobModule") with_blob ≡ create (codes "Blob") with_blob
unfolding short_name text_eq
create-full_name_example = create-full_name (codes "Blob") with_blob (λ e. cc) refl

create_id_unique_example :
    (create_id (codes "Blob") two).0
    ≢ (create_id
        (codes "Blob")
        (after_ids (codes "Camera" ∷ []) (create_id (codes "Blob") two).1)).0
create_id_unique_example =
    create_id_unique (codes "Blob") (codes "Camera" ∷ []) two (omega arith) (omega arith)

outputs-Numbered : (m : ℕ) → Numbered 0 (two.modules m).outputs
outputs-Numbered m = ground arith

web_pipeline_status-Reads_example :
    (members : Members) × (v : World) × (web_pipeline_status (λ name. []) (λ name. []) two
      ≡ some (status_json members two, v))
    × (names_of members ≡ map (λ m. id_of m two) two.elements)
    × Reads two v
    × IsValid v
web_pipeline_status-Reads_example =
    web_pipeline_status-Reads (λ name. []) (λ name. []) two two-IsValid outputs-Numbered

search_module_by_id-Reads_example :
    ((search_module_by_id (codes "Blob") two).0 ≡ get_module_by_id (codes "Blob") two)
    × Reads two (search_module_by_id (codes "Blob") two).1
search_module_by_id-Reads_example = search_module_by_id-Reads (codes "Blob") two
