-- ===== src/Web/Json/Classes.antt =====
-- The handlers of src/movid.cpp that list the module classes and describe one: each makes a module to
-- look at it, and deletes it again.
use movid.Base.{ℕ, Text, pos, Option, none, some, List, [], ◌∷◌, codes, ◌⊎◌, inl, inr}
use movid.Base.Dict.{int_key}
use movid.Float.{Floats}
use movid.Utils.{◌>>=◌}
use movid.World.{World}
use movid.Module.Ports.{get_input_count, get_output_count}
use movid.Module.Lifecycle.{has_gui}
use movid.Factory.{create, list_modules}
use movid.Pipeline.{delete_module}
use movid.Web.{Http, Reply, web_error}
use movid.Web.Json.{
  Json, number, string, object, array, Members, no_members, member, Items, no_items, item, flag,
  success, property_texts, port_items, ports_member,
}

module _ ⦃F : Floats⦄ where
  -- The inputs and outputs of a module that is not connected.
  unfoldable pub plain_ports : ℕ → World → Option Members
  plain_ports m w = do
    ins ← port_items (λ p. no_members) (w.modules m).inputs (get_input_count m w) 0
    outs ← port_items (λ p. no_members) (w.modules m).outputs (get_output_count m w) 0
    some (
        ports_member (codes "inputs") (get_input_count m w) ins
          (ports_member (codes "outputs") (get_output_count m w) outs no_members))

  -- name, description and author, and what follows them
  abbrev pub named : (Text → Text) → (Text → Text) → Text → Members → Members
  named description author name rest = member (codes "name") (string name) (
      member (codes "description") (string (description name))
        (member (codes "author") (string (author name)) rest))

  -- Each class makes a module, which is deleted when it is described.
  unfoldable pub details :
      (Text → Text) → (Text → Text) → List Text → World → Option (Members × World)
  details description author [] w = some (no_members, w)
  details description author (name ∷ names) w = do
    made ← create name w
    ports ← plain_ports (made.0) (made.1)
    rest ← details description author names (delete_module (made.0) (made.1))
    some (
      member ((made.1).modules (made.0)).name
          (object (
            named description author ((made.1).modules (made.0)).name
              (member (codes "gui") (flag (has_gui (made.0) (made.1))) ports)))
          (rest.0),
      rest.1,
    )

  unfoldable pub describe_members : (Text → Text) → (Text → Text) → ℕ → World → Option Members
  describe_members description author m w = do
    ports ← plain_ports m w
    some (
        named description author (w.modules m).name (
          member (codes "running") (flag (w.modules m).is_started) (
            member (codes "gui") (flag (has_gui m w)) (
              member (codes "properties") (object (property_texts (w.modules m).properties))
                ports))))

  unfoldable pub text_items : List Text → Items
  text_items [] = no_items
  text_items (t ∷ ts) = item (string t) (text_items ts)

  unfoldable pub web_factory_list : (Text → Text) → (Text → Text) → World → Option (Json × World)
  web_factory_list description author w = do
    all ← details description author (list_modules w) w
    some (
      object (
          member (codes "success") (number (pos 1)) (
            member (codes "message") (string (codes "ok")) (
              member (codes "list") (array (text_items (list_modules w)))
                (member (codes "details") (object (all.0)) no_members)))),
      all.1,
    )

module _ ⦃F : Floats⦄ ⦃H : Http⦄ where
  -- A module that could be made is described and deleted.
  unfoldable pub described :
      (Text → Text) → (Text → Text) → Option (ℕ × World) → World → Option ((Reply ⊎ Json) × World)
  described description author none w = some (inl (web_error (codes "invalid name")), w)
  described description author (some (m, made)) w = do
    body ← describe_members description author m made
    some (inr (success (codes "describe") (object body)), delete_module m made)

  unfoldable pub web_factory_describe :
      (Text → Text) → (Text → Text) → Option Text → World → Option ((Reply ⊎ Json) × World)
  web_factory_describe description author none w = none
  web_factory_describe description author (some uri) w =
      elim (H.find_header (codes "name") (H.parse_query uri)) [
        | none ↦ some (inl (web_error (codes "missing name")), w)
        | some name ↦ described description author (create name w) w
      ]
