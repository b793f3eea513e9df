-- ===== src/Examples/Tracking.antt =====
-- The theorems on blob trackers, on a tracker that knows one blob, at (5, 5), and sees two.
use mathlib.Core.Logic.{◌↔◌}
use movid.Base.{
  none, true, ℕ, ◌+◌, ◌≤◌, ◌<◌, ℤ, pos, negsuc, ◌+ℤ◌, Text, refl, ◌≡◌, false, some, List, [], ◌∷◌,
  codes, text_eq, All, arith,
}
use movid.Base.Dict.{find, text_key}
use movid.Blob.{Container, integer_at, string_at, double_at, lists}
use movid.Property.{
  string, integer, double, Property, new_property, convert_to_integer, convert_to_string,
  convert_to_double,
}
use movid.Utils.{
  mem, find_first_of, find_first_not_of, find_of_at, find_not_of_at, piece, in_list, in_list_loop,
}
use movid.Number.{read_digits}
use movid.Tracker.{Tracker, tracked_angle, update_tracker}
use movid.Tracker.Angles.{floor_mod, tracked_angle-floor_mod}
use movid.Tracker.Ids.{IsTracked}
use movid.Tracker.Update.{Remembers}
use movid.Tracker.Total.{IsPlainText, IsPlain, IsFound, IsReady}
use movid.Tracker.Greedy.{greedy_track_blobs}
use movid.Tracker.Greedy.Total.{greedy_update}
use movid.Tracker.Ids.{Distinct, ids, age_of}
use movid.Tracker.{track_angle, find_blob}
use movid.Tracker.Crash.{LacksTurns, track_angle-none_iff}
use movid.Tracker.Pushes.{IsBetweenAges, greedy_pushes}
use movid.Tracker.Greedy.{Seen, candidate, closest, distance}
use movid.Tracker.Greedy.Nearest.{IsOrder, IsAttained, closest_nearest}
use movid.Tracker.Lost.{keep}
use movid.Tracker.Lost.{quiet}
use movid.Tracker.Lost.Frames.{greedy_forgets}
use movid.Tracker.Sources.{Counts}
use movid.Examples.Objects.{whole}

abbrev text : Text → Property
text s = new_property (string s) []

abbrev number : ℤ → Property
number z = new_property (integer z) []

abbrev found_at : Text → Text → Container
found_at x y =
    (codes "implements", text (codes "pos,size")) ∷ (codes "x", text x) ∷ (codes "y", text y) ∷ []

abbrev known : Container
known =
    (codes "age", number (pos 4))
    ∷ (codes "blob_id", number (pos 1))
    ∷ (codes "implements", text (codes "pos,size,tracked"))
    ∷ (codes "x", text (codes "5"))
    ∷ (codes "y", text (codes "5"))
    ∷ []

abbrev pub tracker : Tracker
tracker = record {
  max_age = number (pos 10);
  min_age = number (pos 3);
  max_rotation_speed = number (pos 46);
  max_distance = new_property (double 9) [];
  new_blobs = [];
  old_blobs = known ∷ [];
  adolescent = [];
}

-- The counter of a `pincrement` that never overflows here.
abbrev pub next : ℤ → ℤ × ℤ
next z = (z +ℤ pos 1, z +ℤ pos 1)

pub next-Counts : Counts next
next-Counts n h = ground arith

plain : IsPlainText (codes "pos,size,tracked")
plain = record {
  no_object =
      unfold in_list in_list_loop find_of_at find_not_of_at find_first_of find_first_not_of mem
        piece text_eq in
      refl;
  no_volatile =
      unfold in_list in_list_loop find_of_at find_not_of_at find_first_of find_first_not_of mem
        piece text_eq in
      refl;
  no_turn =
      unfold in_list in_list_loop find_of_at find_not_of_at find_first_of find_first_not_of mem
        piece text_eq in
      refl;
}

pub known-IsTracked : IsTracked known
unfolding find text_eq integer_at new_property convert_to_integer
known-IsTracked = (refl, refl)

pub tracker-Remembers : Remembers 1 tracker
unfolding find text_eq integer_at new_property convert_to_integer
tracker-Remembers = ((known-IsTracked, tt), (tt, tt), ((omega arith, omega arith), tt))

pub known-IsPlain : IsPlain known
unfolding find text_eq string_at double_at new_property convert_to_string convert_to_double
    read_digits
known-IsPlain = record {
  words = codes "pos,size,tracked";
  x = 5;
  y = 5;
  says = refl;
  has_x = refl;
  has_y = refl;
  plain = plain;
}

pub found_at-IsFound : (x y : Text) → IsFound (found_at x y)
unfolding find text_eq new_property convert_to_string
found_at-IsFound x y = record {
  words = text (codes "pos,size");
  x = text x;
  y = text y;
  says = refl;
  has_x = refl;
  has_y = refl;
  plain = plain;
}

abbrev pub seen : List Container
seen = found_at (codes "5") (codes "6") ∷ found_at (codes "90") (codes "90") ∷ []

greedy_update_example :
    (u : Tracker) × (k : ℕ) × (update_tracker (greedy_track_blobs next) tracker (pos 1) seen
      ≡ some (u, pos k))
    × (1 ≤ k)
    × (k ≤ 1 + 2)
    × Remembers k u
    × All IsReady u.old_blobs
greedy_update_example =
    greedy_update next 9 46 tracker 1 seen next-Counts
      (unfold new_property convert_to_double in refl)
      (unfold new_property convert_to_double in refl) tracker-Remembers
      ((known-IsTracked, known-IsPlain), tt)
      (found_at-IsFound (codes "5") (codes "6"), (found_at-IsFound (codes "90") (codes "90"), tt))
      (omega arith)

greedy_forgets_example :
    (u : Tracker) × (quiet (10 + 2) (greedy_track_blobs next) tracker (pos 1) ≡ some (u, pos 1))
    × (u.old_blobs ≡ [])
    × (u.adolescent ≡ [])
greedy_forgets_example =
    greedy_forgets next 46 3 10 1 tracker (pos 1) tracker-Remembers
      (unfold new_property convert_to_integer in refl)
      (unfold new_property convert_to_integer in refl) (omega arith)
      (unfold new_property convert_to_double in refl)

tracked_angle-floor_mod_example :
    (tracked_angle (pos 10) (negsuc 0) ≡ pos (floor_mod (negsuc 79)))
    × (floor_mod (negsuc 79) < 360)
tracked_angle-floor_mod_example =
    tracked_angle-floor_mod (pos 10) (negsuc 0) (omega arith) (omega arith)

greedy_pushes_example :
    (u : Tracker) × (c : ℤ) × (update_tracker (greedy_track_blobs next) tracker (pos 1) seen
      ≡ some (u, c))
    × (u.adolescent ≡ keep 3 10 u.old_blobs)
    × All (λ b. IsBetweenAges 3 10 (age_of b)) u.adolescent
    × Distinct (ids u.adolescent)
greedy_pushes_example =
    greedy_pushes next 9 46 3 10 tracker 1 seen next-Counts
      (unfold new_property convert_to_double in refl)
      (unfold new_property convert_to_double in refl)
      (unfold new_property convert_to_integer in refl)
      (unfold new_property convert_to_integer in refl) tracker-Remembers
      ((known-IsTracked, known-IsPlain), tt)
      (found_at-IsFound (codes "5") (codes "6"), (found_at-IsFound (codes "90") (codes "90"), tt))
      (omega arith)

abbrev turning : Container
turning =
    (codes "angle", text (codes "1"))
    ∷ (codes "blob_id", number (pos 1))
    ∷ (codes "implements", text (codes "volatileangle"))
    ∷ []

track_angle-none_iff_example :
    (track_angle (pos 46) (known ∷ []) turning ≡ none)
    ↔ ((lists (codes "volatileangle") (codes "volatileangle") ≡ true) × LacksTurns (some known))
track_angle-none_iff_example =
    track_angle-none_iff (pos 46) (pos 1) (known ∷ []) turning (codes "volatileangle") 1
      (some known) (unfold string_at find text_eq new_property convert_to_string in refl)
      (unfold double_at find text_eq new_property convert_to_double read_digits in refl)
      (unfold integer_at find text_eq new_property convert_to_integer in refl)
      (unfold find_blob integer_at find text_eq new_property convert_to_integer in refl)

whole-IsOrder : IsOrder
whole-IsOrder = record {
  irreflexive = λ (a : ℕ). ground arith;
  transitive = λ (a b c : ℕ) h k. ground arith;
}

abbrev at_5_6 : Seen
at_5_6 = record { new_x = 5; new_y = 6; new_is_fid = false; new_is_volatile = false }

known-candidate : candidate [] at_5_6 turning known ≡ some (some 0)
unfolding candidate distance integer_at string_at double_at find text_eq new_property
    convert_to_integer convert_to_string convert_to_double read_digits in_list in_list_loop
    find_of_at find_not_of_at find_first_of find_first_not_of mem piece
known-candidate = refl

closest_nearest_example : (whole.lt 0 0 ≡ false) × IsAttained [] at_5_6 turning 9 (some known, 0)
closest_nearest_example =
    closest_nearest whole-IsOrder [] at_5_6 turning known 9 0 0 (known ∷ []) (some known, 0)
      (unfold closest in rw known-candidate refl) refl known-candidate
