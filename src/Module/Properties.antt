-- ===== src/Module/Properties.antt =====
-- src/moModule.cpp: the properties of a module, the callback of `gui_feedback`, and the texts that
-- describe and save a module.
use movid.Base.{
  ℕ, Text, Bool, true, false, Option, none, some, List, [], ◌∷◌, ◌++◌, ◌==◌, if◌then◌else◌, codes,
  null,
}
use movid.Base.Dict.{Dict, find, insert, text_key}
use movid.Float.{Floats}
use movid.Utils.{tokenize, ◌>>=◌}
use movid.Property.{Property, string, new_property, set, as_string, set_read_only, set_text}
use movid.World.{callback, gui_feedback, World, write_module, emit}

-- The address of `module_gui_feedback_cb`.
abbrev pub gui_feedback_cb : ℕ
gui_feedback_cb = 0

module _ ⦃F : Floats⦄ where
  unfoldable pub auto_created : Property
  unfolding new_property
  auto_created = new_property (string []) (codes "?? auto created ??")

  -- `property(name)` creates a property that is not there.
  unfoldable pub touch : ℕ → Text → World → World
  touch m key w = elim (find key (w.modules m).properties) [
    | none ↦
        write_module m
          (record (w.modules m) { properties = insert key auto_created (w.modules m).properties }) w
    | some _ ↦ w
  ]

  abbrev pub or_created : Option Property → Property
  or_created none = auto_created
  or_created (some p) = p

  -- The property that `property(name)` refers to.
  unfoldable pub property : ℕ → Text → World → Property
  unfolding auto_created
  property m key w = or_created (find key (w.modules m).properties)

  unfoldable pub write_property : ℕ → Text → Property → World → World
  write_property m key p w =
      write_module m (record (w.modules m) { properties = insert key p (w.modules m).properties }) w

  -- `property("id").asString()`
  unfoldable pub id_of : ℕ → World → Text
  unfolding property
  id_of m w = as_string (property m (codes "id") w)

  -- A text `type;x;y` goes to the module, and any other is dropped.
  unfoldable pub dispatch_feedback : ℕ → Option (List Text) → World → World
  dispatch_feedback m (some (type ∷ x ∷ y ∷ [])) w =
      emit (gui_feedback m type (F.atof x) (F.atof y)) w
  dispatch_feedback m _ w = w

  unfoldable pub module_gui_feedback_cb : Property → ℕ → World → World
  unfolding dispatch_feedback
  module_gui_feedback_cb p m w =
      if null (as_string p) then w else dispatch_feedback m (tokenize (as_string p) (codes ";")) w

  -- `fireCallback`; the user data of every callback of the program is the module. The callbacks of
  -- module classes are not run: each is an event.
  unfoldable pub fire_callbacks : Property → Dict ℕ ℕ → World → World
  unfolding module_gui_feedback_cb
  fire_callbacks p [] w = w
  fire_callbacks p ((cb, userdata) ∷ calls) w = fire_callbacks p calls (
      if cb == gui_feedback_cb
      then module_gui_feedback_cb p userdata w
      else emit (callback cb userdata) w)

  -- `property(key).set(value)`; `none` is a failed `assert`.
  unfoldable pub set_property : ℕ → Text → Text → World → Option World
  unfolding touch property write_property fire_callbacks
  set_property m key value w = do
    let w' = touch m key w
    (p, calls) ← set (string value) (property m key w')
    some (fire_callbacks p calls (write_property m key p w'))

  unfoldable pub set_property_text : ℕ → Text → World → World
  unfolding touch property write_property
  set_property_text m key w =
      let w' = touch m key w in write_property m key (set_text true (property m key w')) w'

  unfoldable pub set_property_read_only : ℕ → Text → World → World
  unfolding touch property write_property
  set_property_read_only m key w =
      let w' = touch m key w in write_property m key (set_read_only true (property m key w')) w'

  abbrev pub have_error : ℕ → World → Bool
  have_error m w = (w.modules m).is_error

  -- `getLastError` resets the error, and looks at the id.
  unfoldable pub get_last_error : ℕ → World → Text × World
  unfolding id_of touch
  get_last_error m w0 =
      let w =
        touch m (codes "id") (write_module m (record (w0.modules m) { is_error = false }) w0) in
      (codes "<" ++ (id_of m w ++ (codes "> " ++ (w.modules m).error_msg)), w)

  unfoldable pub notify_gui : ℕ → World → World
  notify_gui m w = write_module m (record (w.modules m) { need_gui_build = true }) w
