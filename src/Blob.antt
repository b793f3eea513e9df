-- ===== src/Blob.antt =====
-- src/moDataGenericContainer.cpp: the blobs that the finders send down the pipeline. A blob is its
-- map of properties. `none` is the dereference of a NULL pointer, which `properties[name]` returns
-- for a name that is not there, or a failed `assert`.
use movid.Base.{ℤ, Text, Bool, Option, some, [], ◌∷◌, codes, is_some}
use movid.Base.Dict.{Dict, find, insert, modify, text_key}
use movid.DataStream.{returned}
use movid.Float.{Floats}
use movid.Property.{Value, string, Property, new_property, set, as_string, as_integer, as_double}
use movid.Utils.{in_list, ◌>>=◌}

-- `moUtils::inList(word, list)`
abbrev pub lists : Text → Text → Bool
lists word list = returned (in_list word list (codes ","))

module _ ⦃F : Floats⦄ where
  open F use {Double}

  abbrev pub Container : Type 0
  Container = Dict Text Property

  -- Each property is copied as its text.
  unfoldable pub clone : Container → Container
  clone [] = []
  clone ((name, p) ∷ properties) = (name, new_property (string (as_string p)) []) ∷ clone properties

  unfoldable pub has_property : Text → Container → Bool
  has_property name b = is_some (find name b)

  -- `properties[name]->asInteger()` and its like
  unfoldable pub integer_at : Text → Container → Option ℤ
  integer_at name b = do p ← find name b; some (as_integer p)

  unfoldable pub string_at : Text → Container → Option Text
  string_at name b = do p ← find name b; some (as_string p)

  unfoldable pub double_at : Text → Container → Option Double
  double_at name b = do p ← find name b; as_double p

  -- `properties[name]->set(value)`
  unfoldable pub set_at : Text → Value → Container → Option Container
  set_at name value b = do p ← find name b; done ← set value p; some (modify name (λ _. done.0) b)

  -- `properties[name] = new moProperty(value)`
  unfoldable pub put_at : Text → Value → Container → Container
  put_at name value b = insert name (new_property value []) b
