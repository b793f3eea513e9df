-- ===== src/Web/Json.antt =====
-- The handlers of src/movid.cpp that reply with a tree of cJSON. What a module class says of itself by
-- virtual methods, its description and its author by its name, are arguments. `none` is a
-- dereference of NULL or a failed `assert`.
pub mod Reads
pub mod Classes
pub mod Keeps
use movid.Base.{
  ℕ, zero, suc, Text, ℤ, pos, Bool, true, false, Option, none, some, List, [], ◌∷◌, if◌then◌else◌,
  codes, is_some, ◌==◌, ◌⊎◌, inl, inr,
}
use movid.Base.Dict.{Dict, find, int_key}
use movid.Float.{Floats}
use movid.Number.{print_nat}
use movid.Utils.{◌>>=◌}
use movid.Property.{Property, get_type, get_property_type_name, as_string}
use movid.World.{Port, Module, Stats, World}
use movid.Module.Ports.{get_input_count, get_output_count}
use movid.Module.Properties.{touch, id_of}
use movid.Module.Lifecycle.{has_gui}
use movid.Factory.{create, list_modules}
use movid.Pipeline.{delete_module, size, is_pipeline_started}
use movid.Web.{Http, Reply, web_error, slot_file}

module _ ⦃F : Floats⦄ where
  open F use {Double}

  -- cJSON
  mutual
    pub data Json : Type 0 where
      number : ℤ → Json
      real : Double → Json
      string : Text → Json
      object : Members → Json
      array : Items → Json

    pub data Members : Type 0 where
      no_members : Members
      member : Text → Json → Members → Members

    pub data Items : Type 0 where
      no_items : Items
      item : Json → Items → Items

  -- `test ? 1 : 0`
  abbrev pub flag : Bool → Json
  flag b = if b then number (pos 1) else number (pos 0)

  -- The members that every reply begins with.
  abbrev pub success : Text → Json → Json
  success name body = object (
      member (codes "success") (number (pos 1))
        (member (codes "message") (string (codes "ok")) (member name body no_members)))

  unfoldable pub stats_members : Stats → Members
  stats_members s = member (codes "average_fps") (real s.average_fps) (
      member (codes "average_process_time") (real s.average_process_time) (
        member (codes "average_wait_time") (real s.average_wait_time) (
          member (codes "total_process_frame") (number (pos s.total_process_frame)) (
            member (codes "total_process_time") (real s.total_process_time)
              (member (codes "total_wait_time") (real s.total_wait_time) no_members)))))

  unfoldable pub stats_of : List ℕ → World → Members × World
  stats_of [] w = (no_members, w)
  stats_of (m ∷ ms) w =
      let rest = stats_of ms (touch m (codes "id") w) in
      (member (id_of m w) (object (stats_members (w.modules m).stats)) rest.0, rest.1)

  unfoldable pub web_pipeline_stats : World → Json × World
  web_pipeline_stats w =
      let s = stats_of w.elements w in (success (codes "stats") (object s.0), s.1)

  unfoldable pub property_texts : Dict Text Property → Members
  property_texts [] = no_members
  property_texts ((name, p) ∷ ps) = member name (string (as_string p)) (property_texts ps)

  abbrev pub optional : Bool → Text → Json → Members → Members
  optional b name value rest = if b then member name value rest else rest

  unfoldable pub property_infos : Dict Text Property → Members
  property_infos [] = no_members
  property_infos ((name, p) ∷ ps) =
      member name
        (object (
          member (codes "type") (string (get_property_type_name (get_type p.val))) (
            member (codes "readonly") (flag p.readonly) (
              optional p.have_max (codes "max") (number p.val_max) (
                optional p.have_min (codes "min") (number p.val_min)
                  (optional p.have_choices (codes "choices") (string p.val_choices) no_members))))))
        (property_infos ps)

  -- index, name and type of an input or output, and what follows them
  abbrev pub port_members : ℕ → Port → Members → Json
  port_members i p rest = object (
      member (codes "index") (number (pos i)) (
        member (codes "name") (string p.info.name)
          (member (codes "type") (string p.info.type) rest)))

  -- The items of the ports `i` on, of which `k` are left, with the members that `more` adds.
  unfoldable pub port_items : (Port → Members) → Dict ℤ Port → ℕ → ℕ → Option Items
  port_items more ports zero i = some no_items
  port_items more ports (suc k) i = do
    p ← find (pos i) ports
    rest ← port_items more ports k (suc i)
    some (item (port_members i p (more p)) rest)

  abbrev pub used : Port → Members → Members
  used p rest = member (codes "used") (flag (is_some p.stream)) rest

  unfoldable pub observer_members : List ℕ → ℕ → World → Members × World
  observer_members [] j w = (no_members, w)
  observer_members (o ∷ os) j w =
      let rest = observer_members os (suc j) (touch o (codes "id") w) in
      (member (print_nat j) (string (id_of o w)) rest.0, rest.1)

  abbrev pub observers_of : Option ℕ → World → List ℕ
  observers_of none w = []
  observers_of (some s) w = (w.streams s).observers

  unfoldable pub output_items : ℕ → ℕ → ℕ → World → Option (Items × World)
  output_items m zero i w = some (no_items, w)
  output_items m (suc k) i w = do
    p ← find (pos i) (w.modules m).outputs
    let seen = observer_members (observers_of p.stream w) 0 w
    rest ← output_items m k (suc i) (seen.1)
    some (
      item (port_members i p (used p (member (codes "observers") (object (seen.0)) no_members)))
          (rest.0),
      rest.1,
    )

  abbrev pub ports_member : Text → ℕ → Items → Members → Members
  ports_member name count items rest = if count == 0 then rest else member name (array items) rest

  abbrev pub module_json : (Text → Text) → (Text → Text) → ℕ → World → Items → Items → Json
  module_json description author m w ins outs = object (
      member (codes "name") (string (w.modules m).name) (
        member (codes "description") (string (description (w.modules m).name)) (
          member (codes "author") (string (author (w.modules m).name)) (
            member (codes "running") (flag (w.modules m).is_started) (
              member (codes "gui") (flag (has_gui m w)) (
                member (codes "properties") (object (property_texts (w.modules m).properties)) (
                  member (codes "propertiesInfos")
                    (object (property_infos (w.modules m).properties))
                    (ports_member (codes "inputs") (get_input_count m w) ins (
                      ports_member (codes "outputs") (get_output_count m w) outs no_members)))))))))

  unfoldable pub module_status : (Text → Text) → (Text → Text) → ℕ → World → Option (Json × World)
  module_status description author m w = do
    ins ← port_items (λ p. used p no_members) (w.modules m).inputs (get_input_count m w) 0
    outs ← output_items m (get_output_count m w) 0 w
    some (module_json description author m w ins (outs.0), outs.1)

  unfoldable pub modules_status :
      (Text → Text) → (Text → Text) → List ℕ → World → Option (Members × World)
  modules_status description author [] w = some (no_members, w)
  modules_status description author (m ∷ ms) w = do
    one ← module_status description author m (touch m (codes "id") w)
    rest ← modules_status description author ms (one.1)
    some (member (id_of m w) (one.0) (rest.0), rest.1)

  abbrev pub status_json : Members → World → Json
  status_json modules w = success (codes "status") (
      object (
        member (codes "version") (string (codes "0.2")) (
          member (codes "size") (number (pos (size w))) (
            member (codes "running") (flag (is_pipeline_started w))
              (member (codes "modules") (object modules) no_members)))))

  unfoldable pub web_pipeline_status : (Text → Text) → (Text → Text) → World → Option (Json × World)
  web_pipeline_status description author w = do
    status ← modules_status description author w.elements w
    some (status_json (status.0) w, status.1)

  -- `stat` of the files of the slots, by name: the time of the last change of one that is there.
  unfoldable pub slot_items : (Text → Option ℤ) → ℕ → ℕ → Items
  slot_items stat zero i = no_items
  slot_items stat (suc k) i =
      item
        (object (
          member (codes "lastmod")
            (elim (stat (slot_file (pos i))) [ none ↦ number (pos 0) | some t ↦ number t ])
            no_members))
        (slot_items stat k (suc i))

  unfoldable pub web_pipeline_slot_refresh : (Text → Option ℤ) → Json
  web_pipeline_slot_refresh stat = success (codes "slots") (array (slot_items stat 10 1))
