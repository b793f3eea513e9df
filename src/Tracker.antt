-- ===== src/Tracker.antt =====
-- src/modules/moAbstractBlobTrackerModule.cpp: the update of a blob tracker, on lists of blobs. A
-- blob stands in one of the tracker's lists at a time, so the lists hold the blobs themselves.
-- `trackBlobs`, the virtual method, is an argument of the update: Tracker/Greedy and
-- Tracker/Munkres are the two that the program has. `none` is that of Blob.
pub mod Greedy
pub mod Munkres
pub mod Fields
pub mod Ids
pub mod Angles
pub mod Lost
pub mod Pushes
pub mod Crash
pub mod Ready
pub mod Sources
pub mod Steps
pub mod Total
pub mod Update
use movid.Base.{
  ℕ, suc, ◌+◌, Text, ℤ, pos, to_int32, eq_ℤ, ltb_ℤ, ◌+ℤ◌, ◌-ℤ◌, times, rem, Bool, true, false, not,
  ◌&&◌, Option, none, some, List, [], ◌∷◌, ◌++◌, codes, if◌then◌else◌,
}
use movid.Blob.{Container, clone, integer_at, string_at, double_at, set_at, put_at, lists}
use movid.Float.{Floats}
use movid.Property.{string, integer, double, Property, new_property, as_integer, as_double}
use movid.Utils.{◌>>=◌}

-- The angle that is left after `fallen_over` quarter turns.
unfoldable pub tracked_angle : ℤ → ℤ → ℤ
tracked_angle angle fallen_over =
    rem (rem (to_int32 (angle +ℤ to_int32 (times 90 fallen_over))) 360 +ℤ pos 360) 360

-- (age <= max_age) && (age >= min_age)
abbrev pub in_range : ℤ → ℤ → ℤ → Bool
in_range min_age max_age age = not (ltb_ℤ max_age age) && not (ltb_ℤ age min_age)

abbrev pub met_age : ℤ → ℤ → ℤ → ℤ
met_age min_age max_age age = if in_range min_age max_age age then min_age else age

module _ ⦃F : Floats⦄ where
  open F use {Double}

  -- The properties that the constructors declare, and the lists.
  pub record Tracker : Type 0 where
    pub max_age : Property
    pub min_age : Property
    pub max_rotation_speed : Property
    pub max_distance : Property
    pub new_blobs : List Container
    pub old_blobs : List Container
    pub adolescent : List Container

  -- The constructors; 0.1 is read as the compiler reads it.
  unfoldable pub new_tracker : Tracker
  new_tracker = record {
    max_age = new_property (integer (pos 10)) [];
    min_age = new_property (integer (pos 3)) [];
    max_rotation_speed = new_property (integer (pos 46)) [];
    max_distance = new_property (double (F.atof (codes "0.1"))) [];
    new_blobs = [];
    old_blobs = [];
    adolescent = [];
  }

  -- What `trackBlobs` does to `id_counter` and `new_blobs`.
  abbrev pub TrackBlobs : Type 0
  TrackBlobs = Tracker → ℤ → Option (ℤ × List Container)

  -- PI
  abbrev pub pi : Double
  pi = F.atof (codes "3.14159265")

  unfoldable pub rad_to_deg : Double → Double
  rad_to_deg rad = F.mul rad (F.div (F.of_int (pos 180)) pi)

  unfoldable pub deg_to_rad : Double → Double
  deg_to_rad deg = F.mul deg (F.div pi (F.of_int (pos 180)))

  -- Every blob in turn.
  unfoldable pub each_blob :
      (Container → Option Container) → List Container → Option (List Container)
  each_blob f [] = some []
  each_blob f (b ∷ bs) = do c ← f b; cs ← each_blob f bs; some (c ∷ cs)

  -- The search through a list by `blob_id`.
  unfoldable pub find_blob : ℤ → List Container → Option (Option Container)
  find_blob id [] = some none
  find_blob id (b ∷ bs) = do
    found ← integer_at (codes "blob_id") b
    (let rest = find_blob id bs in if eq_ℤ found id then some (some b) else rest)

  unfoldable pub turn_count : ℤ → ℤ → ℤ → ℤ → ℤ
  turn_count max_diff angle last_angle fallen_over =
      if F.lt (F.to_float (F.of_int max_diff))
        (F.fabs (F.to_float (F.of_int (to_int32 (last_angle -ℤ angle)))))
      then if ltb_ℤ angle last_angle
        then to_int32 (fallen_over +ℤ pos 1)
        else to_int32 (fallen_over -ℤ pos 1)
      else fallen_over

  -- The part of the loop that follows the search.
  unfoldable pub turn : ℤ → ℤ → Container → Option Container → Option Container
  turn max_diff angle b none = some (
      put_at (codes "fallen_over") (integer (pos 0))
        (put_at (codes "last_angle") (integer angle) b))
  turn max_diff angle b (some old) = do
    fallen_over ← integer_at (codes "fallen_over") old
    last_angle ← integer_at (codes "last_angle") old
    let turns = turn_count max_diff angle last_angle fallen_over
    set_at (codes "angle") (double (deg_to_rad (F.of_int (tracked_angle angle turns)))) (
        put_at (codes "last_angle") (integer angle)
          (put_at (codes "fallen_over") (integer turns) b))

  unfoldable pub turn_blob : ℤ → List Container → Container → Option Container
  turn_blob max_diff olds b = do
    angle ← double_at (codes "angle") b
    id ← integer_at (codes "blob_id") b
    old ← find_blob id olds
    turn max_diff (F.to_int (rad_to_deg angle)) b old

  unfoldable pub track_angle : ℤ → List Container → Container → Option Container
  track_angle max_diff olds b = do
    implements ← string_at (codes "implements") b
    (let turned = turn_blob max_diff olds b in
        if lists (codes "volatileangle") implements then turned else some b)

  unfoldable pub track_angles : Tracker → List Container → Option (List Container)
  track_angles t bs = do
    max_diff ← as_double t.max_rotation_speed
    each_blob (track_angle (F.to_int max_diff) t.old_blobs) bs

  unfoldable pub grow_older : Container → Option Container
  grow_older b = do
    age ← integer_at (codes "age") b
    set_at (codes "age") (integer (to_int32 (age +ℤ pos 1))) b

  unfoldable pub copy : Container → Option Container
  copy original = do
    let b = clone original
    implements ← string_at (codes "implements") b
    marked ← set_at (codes "implements") (string (implements ++ codes ",tracked")) b
    some
        (put_at (codes "age") (integer (pos 0)) (put_at (codes "blob_id") (integer (pos 0)) marked))

  -- The blob of the new list that has the same id takes the age over; otherwise the old blob is
  -- added at the end, if it is to be kept.
  unfoldable pub meet : ℤ → ℤ → ℤ → ℤ → Container → List Container → Option (List Container)
  meet min_age max_age id age old [] = some (if in_range min_age max_age age then old ∷ [] else [])
  meet min_age max_age id age old (b ∷ bs) = do
    found ← integer_at (codes "blob_id") b
    (let rest = meet min_age max_age id age old bs in
        if eq_ℤ id found
        then (do c ← set_at (codes "age") (integer (met_age min_age max_age age)) b; some (c ∷ bs))
        else (do cs ← rest; some (b ∷ cs)))

  unfoldable pub retain : ℤ → ℤ → List Container → List Container → Option (List Container)
  retain min_age max_age [] bs = some bs
  retain min_age max_age (old ∷ olds) bs = do
    id ← integer_at (codes "blob_id") old
    age ← integer_at (codes "age") old
    met ← meet min_age max_age id age old bs
    retain min_age max_age olds met

  unfoldable pub grown : ℤ → ℤ → List Container → Option (List Container)
  grown min_age max_age [] = some []
  grown min_age max_age (b ∷ bs) = do
    age ← integer_at (codes "age") b
    rest ← grown min_age max_age bs
    some (if in_range min_age max_age age then b ∷ rest else rest)

  -- `update` of a tracker whose input holds `blobs`: the tracker after it, whose list `adolescent`
  -- is what the output pushes, and `id_counter`.
  unfoldable pub update_tracker : TrackBlobs → Tracker → ℤ → List Container → Option (Tracker × ℤ)
  update_tracker track_blobs t counter blobs = do
    let max_age = as_integer t.max_age
    let min_age = as_integer t.min_age
    olds ← each_blob grow_older t.old_blobs
    copies ← each_blob copy blobs
    let aged = record t { old_blobs = olds; new_blobs = copies; adolescent = [] }
    tracked ← track_blobs aged counter
    turned ← track_angles aged (tracked.1)
    kept ← retain min_age max_age olds turned
    out ← grown min_age max_age kept
    some (record aged { old_blobs = kept; new_blobs = olds; adolescent = out }, tracked.0)
