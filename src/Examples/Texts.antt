-- ===== src/Examples/Texts.antt =====
-- The theorems on texts, numbers, properties and files.
use movid.Base.{
  ◌≡◌, ◌≢◌, refl, Text, pos, true, false, none, some, List, [], ◌∷◌, ◌++◌, codes, arith, All, any,
  text_eq, take, if◌then◌else◌, ◌↔◌,
}
use movid.Utils.{tokenize, in_list, find_first_of, mem, substr}
use movid.Utils.Split.{split, tokenize-split, join, join-tokenize, IsFree}
use movid.Utils.Words.{words, in_list-words}
use movid.Number.{atoi, print_nat, read_digits}
use movid.Property.{
  Point, string, integer, pointlist, Property, new_property, set, get_type, as_string,
  convert_to_point_list, convert_to_string, stream_property,
}
use movid.Property.Convert.{IsStable, IsStablePoint, convert_to_point_list-print}
use movid.Property.Setting.{
  IsPointsIntoDouble, set_keeps, set-eq-none_iff, set-as_string, stream_property_pointlist,
}
use movid.Web.File.{web_file, starts_with, gui_prefix, content_type}
use movid.Web.File.Safety.{dots, web_file_safe}
use movid.Examples.Objects.{whole}

tokenize-split_example :
    tokenize (codes "a;b;") (codes ";") ≡ some (split (codes ";") (codes "a;b;"))
tokenize-split_example = tokenize-split (codes "a;b;") 59

join-tokenize_example :
    (join 59 (codes "a" ∷ codes "b" ∷ []) ≡ codes "a;b")
    × All (IsFree (codes ";")) (codes "a" ∷ codes "b" ∷ [])
unfolding tokenize find_first_of mem substr
join-tokenize_example = join-tokenize (codes "a;b") 59 (codes "a" ∷ codes "b" ∷ []) refl

in_list-words_example :
    in_list (codes "b") (codes "a,b") (codes ",")
    ≡ some (any (λ w. text_eq w (codes "b")) (words (codes ",") (codes "a,b")))
in_list-words_example = in_list-words (codes "b") (codes "a,b") (codes ",")

abbrev points : List Point
points = record { x = 3; y = 12 } ∷ record { x = 12; y = 3 } ∷ []

twelve-IsStable : IsStable 12
unfolding print_nat read_digits mem
twelve-IsStable = record { reads_back = refl; no_comma = refl; no_semicolon = refl }

three-IsStable : IsStable 3
unfolding print_nat read_digits mem
three-IsStable = record { reads_back = refl; no_comma = refl; no_semicolon = refl }

points-IsStablePoint : All IsStablePoint points
points-IsStablePoint = ((three-IsStable, twelve-IsStable), ((twelve-IsStable, three-IsStable), tt))

convert_to_point_list-print_example :
    convert_to_point_list (string (convert_to_string (pointlist points))) ≡ some points
convert_to_point_list-print_example = convert_to_point_list-print points points-IsStablePoint

abbrev threshold : Property
threshold = record (new_property (integer (pos 4)) []) { callbacks = (1, 2) ∷ [] }

abbrev written : Property
written = record threshold { val = integer (pos 12) }

set_keeps_example :
    (get_type written.val ≡ get_type threshold.val)
    × (written ≡ record threshold { val = written.val })
    × ((1, 2) ∷ [] ≡ (if threshold.readonly then [] else threshold.callbacks))
    × (threshold.readonly ≡ true → written ≡ threshold)
unfolding set new_property atoi
set_keeps_example = set_keeps (string (codes "12")) threshold written ((1, 2) ∷ []) refl

set-eq-none_iff_example :
    (set (pointlist points) threshold ≡ none)
    ↔ ((threshold.readonly ≡ false) × IsPointsIntoDouble threshold.val (pointlist points))
set-eq-none_iff_example = set-eq-none_iff (pointlist points) threshold

set-as_string_example : set (string (as_string threshold)) threshold ≡ some (threshold, (1, 2) ∷ [])
unfolding new_property
set-as_string_example = set-as_string threshold refl (omega arith)

stream_property_pointlist_example : stream_property 3 (new_property (pointlist points) []) ≡ none
unfolding new_property
stream_property_pointlist_example =
    stream_property_pointlist 3 (new_property (pointlist points) []) points refl

web_file_safe_example :
    (path : Text) × (codes "gui/index.js" ≡ take 255 (codes "gui" ++ (47 ∷ path)))
    × All (λ w. w ≢ dots) (split (codes "/") path)
    × (true ≡ true)
    × (codes "application/javascript" ≡ content_type (codes "gui/index.js"))
    × (starts_with gui_prefix (codes "/gui/index.js?v=1") ≡ true)
unfolding web_file text_eq
web_file_safe_example =
    web_file_safe (codes "gui") (λ name. true) (codes "/gui/index.js?v=1")
      (codes "application/javascript") (codes "gui/index.js") refl
