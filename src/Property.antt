-- ===== src/Property.antt =====
-- src/moProperty.cpp and src/moProperty.h: a typed value with a description, bounds and callbacks.
-- The tag and the `void *` of the class are one data type, since the constructors set both. A set
-- returns the property and the callbacks that it runs, in order; `none` is a failed `assert`.
pub mod Convert
pub mod Setting
use movid.Base.{
  ℕ, zero, suc, ◌+◌, Text, ℤ, pos, negsuc, to_int32, eq_ℤ, Bool, true, false, not, Option, none,
  some, List, [], ◌∷◌, ◌++◌, codes, text_eq, length, null, if◌then◌else◌, ◌||◌, ◌==◌,
}
use movid.Base.Dict.{Dict, find, insert, remove, nat_key}
use movid.Float.{Floats}
use movid.Number.{print_int, atoi}
use movid.Utils.{tokenize, ◌>>=◌}

pub data PropertyType : Type 0 where
  none_type bool_type string_type integer_type double_type pointlist_type : PropertyType

module _ ⦃F : Floats⦄ where
  open F use {Double}

  pub record Point : Type 0 where
    pub x : Double
    pub y : Double

  pub data Value : Type 0 where
    bool : Bool → Value
    string : Text → Value
    integer : ℤ → Value
    double : Double → Value
    pointlist : List Point → Value

  unfoldable pub get_type : Value → PropertyType
  get_type (bool b) = bool_type
  get_type (string s) = string_type
  get_type (integer z) = integer_type
  get_type (double d) = double_type
  get_type (pointlist l) = pointlist_type

  unfoldable pub convert_to_bool : Value → Bool
  convert_to_bool (bool b) = b
  convert_to_bool (string s) =
      text_eq s (codes "True")
      || text_eq s (codes "true")
      || text_eq s (codes "TRUE")
      || text_eq s (codes "1")
  convert_to_bool (integer z) = if eq_ℤ z (pos 0) then false else true
  convert_to_bool (double d) = if F.is_zero d then false else true
  convert_to_bool (pointlist l) = not (null l)

  unfoldable pub print_points : List Point → Text
  print_points [] = []
  print_points (p ∷ l) =
      F.print_stream p.x ++ (codes "," ++ (F.print_stream p.y ++ (codes ";" ++ print_points l)))

  unfoldable pub convert_to_string : Value → Text
  unfolding print_points
  convert_to_string (string s) = s
  convert_to_string (bool b) = if b then codes "true" else codes "false"
  convert_to_string (integer z) = print_int z
  convert_to_string (double d) = F.print_fixed d
  convert_to_string (pointlist l) = print_points l

  unfoldable pub convert_to_double : Value → Option Double
  convert_to_double (string s) = some (F.atof s)
  convert_to_double (bool b) = some (if b then F.one_double else F.zero_double)
  convert_to_double (integer z) = some (F.of_int z)
  convert_to_double (double d) = some d
  convert_to_double (pointlist l) = none

  unfoldable pub convert_to_integer : Value → ℤ
  convert_to_integer (string s) = atoi s
  convert_to_integer (bool b) = if b then pos 1 else pos 0
  convert_to_integer (integer z) = z
  convert_to_integer (double d) = F.to_int d
  convert_to_integer (pointlist l) = to_int32 (pos (length l))

  -- A point that is not two numbers is left out.
  abbrev pub add_point : List Text → List Point → List Point
  add_point (px ∷ py ∷ []) l = record { x = F.atof px; y = F.atof py } ∷ l
  add_point (px ∷ py ∷ pz ∷ more) l = l
  add_point (px ∷ []) l = l
  add_point [] l = l

  unfoldable pub read_points : List Text → Option (List Point)
  read_points [] = some []
  read_points (point ∷ points) = do
    xy ← tokenize point (codes ",")
    rest ← read_points points
    some (add_point xy rest)

  unfoldable pub convert_to_point_list : Value → Option (List Point)
  unfolding read_points
  convert_to_point_list (string s) = do points ← tokenize s (codes ";"); read_points points
  convert_to_point_list (pointlist l) = some l
  convert_to_point_list (bool b) = some []
  convert_to_point_list (integer z) = some []
  convert_to_point_list (double d) = some []

  -- The macro `AUTOCONVERT`: the new value at the type of the old one.
  unfoldable pub autoconvert : Value → Value → Option Value
  unfolding convert_to_bool convert_to_string convert_to_integer convert_to_double
      convert_to_point_list
  autoconvert (bool _) new = some (bool (convert_to_bool new))
  autoconvert (string _) new = some (string (convert_to_string new))
  autoconvert (integer _) new = some (integer (convert_to_integer new))
  autoconvert (double _) new = do d ← convert_to_double new; some (double d)
  autoconvert (pointlist _) new = do l ← convert_to_point_list new; some (pointlist l)

  -- A callback is a function pointer, and its user data a pointer; both are numbers here.
  pub record Property : Type 0 where
    pub val : Value
    pub callbacks : Dict ℕ ℕ
    pub description : Text
    pub readonly : Bool
    pub have_min : Bool
    pub have_max : Bool
    pub have_choices : Bool
    pub is_text : Bool
    pub val_min : ℤ
    pub val_max : ℤ
    pub val_choices : Text

  -- The constructors, which set the value with no callback to run.
  unfoldable pub new_property : Value → Text → Property
  new_property value description = record {
    val = value;
    callbacks = [];
    description = description;
    readonly = false;
    have_min = false;
    have_max = false;
    have_choices = false;
    is_text = false;
    val_min = pos 0;
    val_max = pos 0;
    val_choices = [];
  }

  -- The five `set` methods: the argument is the value with the type of the overload.
  unfoldable pub set : Value → Property → Option (Property × Dict ℕ ℕ)
  unfolding autoconvert
  set value p =
      if p.readonly
      then some (p, [])
      else (do val ← autoconvert p.val value; some (record p { val = val }, p.callbacks))

  abbrev pub as_bool : Property → Bool
  as_bool p = convert_to_bool p.val

  abbrev pub as_string : Property → Text
  as_string p = convert_to_string p.val

  abbrev pub as_double : Property → Option Double
  as_double p = convert_to_double p.val

  abbrev pub as_integer : Property → ℤ
  as_integer p = convert_to_integer p.val

  abbrev pub as_point_list : Property → Option (List Point)
  as_point_list p = convert_to_point_list p.val

  abbrev pub set_read_only : Bool → Property → Property
  set_read_only ro p = record p { readonly = ro }

  abbrev pub set_min : ℤ → Property → Property
  set_min v p = record p { val_min = v; have_min = true }

  abbrev pub set_max : ℤ → Property → Property
  set_max v p = record p { val_max = v; have_max = true }

  abbrev pub set_choices : Text → Property → Property
  set_choices v p = record p { val_choices = v; have_choices = true }

  abbrev pub set_text : Bool → Property → Property
  set_text b p = record p { is_text = b }

  abbrev pub set_description : Text → Property → Property
  set_description d p = record p { description = d }

  -- `assert` that the callback is not yet there
  unfoldable pub add_callback : ℕ → ℕ → Property → Option Property
  add_callback callback userdata p = elim (find callback p.callbacks) [
    | none ↦ some (record p { callbacks = insert callback userdata p.callbacks })
    | some _ ↦ none
  ]

  unfoldable pub remove_callback : ℕ → Property → Property
  remove_callback callback p = record p { callbacks = remove callback p.callbacks }

  -- `operator<<`. A point list has no such operator of its own: it becomes a property by the
  -- implicit constructor, and the same function is called on that.
  unfoldable pub stream_property : ℕ → Property → Option Text
  stream_property zero p = none
  stream_property (suc f) p = elim p.val [
    | string s ↦ some s
    | bool b ↦ some (if b then codes "1" else codes "0")
    | integer z ↦ some (print_int z)
    | double d ↦ some (F.print_stream d)
    | pointlist l ↦ stream_property f (new_property (pointlist l) [])
  ]

abbrev pub get_property_type_name : PropertyType → Text
get_property_type_name double_type = codes "double"
get_property_type_name integer_type = codes "integer"
get_property_type_name string_type = codes "string"
get_property_type_name bool_type = codes "bool"
get_property_type_name pointlist_type = codes "pointlist"
get_property_type_name none_type = codes "unknown"
