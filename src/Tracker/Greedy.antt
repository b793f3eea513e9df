-- ===== src/Tracker/Greedy.antt =====
-- src/modules/moGreedyBlobTrackerModule.cpp: each new blob takes the id of the closest old blob that
-- no blob before it took, or a fresh id. `pincrement` of the ptypes library returns the new value
-- of a counter, and the counter after it.
pub mod Closest
pub mod Contract
pub mod Nearest
pub mod Total
use movid.Base.{
  ◌+◌, Text, ℤ, pos, negsuc, to_int32, eq_ℤ, ◌+ℤ◌, Bool, true, false, not, ◌&&◌, ◌||◌, Option, none,
  some, List, [], ◌∷◌, ◌++◌, codes, any, if◌then◌else◌,
}
use movid.Blob.{Container, integer_at, string_at, double_at, set_at, lists}
use movid.Float.{Floats}
use movid.Property.{Property, integer, as_integer, as_double}
use movid.Tracker.{Tracker, TrackBlobs, each_blob}
use movid.Utils.{◌>>=◌}

abbrev pub is_object : Text → Bool
is_object implements =
    lists (codes "fiducial") implements || lists (codes "markerlessobject") implements

module _ ⦃F : Floats⦄ where
  open F use {Double}

  -- What is read of a new blob before the old ones are searched.
  pub record Seen : Type 0 where
    pub new_x : Double
    pub new_y : Double
    pub new_is_fid : Bool
    pub new_is_volatile : Bool

  unfoldable pub look : Container → Option Seen
  look b = do
    x ← double_at (codes "x") b
    y ← double_at (codes "y") b
    implements ← string_at (codes "implements") b
    some record {
      new_x = x;
      new_y = y;
      new_is_fid = is_object implements;
      new_is_volatile = lists (codes "volatile") implements;
    }

  unfoldable pub distance : Seen → Container → Option Double
  distance s old = do
    old_x ← double_at (codes "x") old
    old_y ← double_at (codes "y") old
    some (
        F.sqrt (
          F.add (F.pow (F.sub old_x s.new_x) (F.of_int (pos 2)))
            (F.pow (F.sub old_y s.new_y) (F.of_int (pos 2)))))

  -- Whether two objects have different numbers.
  unfoldable pub other_object : Container → Container → Option Bool
  other_object b old = do
    fid ← integer_at (codes "fiducial_id") b
    old_fid ← integer_at (codes "fiducial_id") old
    some (not (eq_ℤ fid old_fid))

  -- The inner loop's body up to the comparison: `some none` is `continue`.
  unfoldable pub candidate : List ℤ → Seen → Container → Container → Option (Option Double)
  candidate reused s b old = do
    old_id ← integer_at (codes "blob_id") old
    (if any (λ id. eq_ℤ id old_id) reused then some none else (do
      old_implements ← string_at (codes "implements") old
      let old_is_fid = is_object old_implements
      other ←
          (if old_is_fid && (s.new_is_fid && not s.new_is_volatile)
            then other_object b old
            else some false)
      (if other || (not old_is_fid && s.new_is_fid)
          then some none
          else (do d ← distance s old; some (some d)))))

  abbrev pub closer :
      Container → Option Double → Option Container × Double → Option Container × Double
  closer old none best = best
  closer old (some d) (blob, min_distance) =
      if F.lt d min_distance then (some old, d) else (blob, min_distance)

  unfoldable pub closest :
      List ℤ
      → Seen
      → Container
      → List Container
      → Option Container × Double
      → Option (Option Container × Double)
  closest reused s b [] best = some best
  closest reused s b (old ∷ olds) best = do
    found ← candidate reused s b old
    closest reused s b olds (closer old found best)

  -- A volatile blob that meets an object is taken for that object.
  unfoldable pub copy_object : Seen → Container → Container → Option Container
  copy_object s old b = do
    old_implements ← string_at (codes "implements") old
    (if is_object old_implements && (s.new_is_fid && s.new_is_volatile)
        then (do
          old_fid ← integer_at (codes "fiducial_id") old
          set_at (codes "fiducial_id") (integer old_fid) b)
        else some b)

  -- The outer loop's last part: `id_counter`, `reused` and the blob after it.
  unfoldable pub take_id :
      (ℤ → ℤ × ℤ)
      → Seen
      → ℤ
      → List ℤ
      → Container
      → Option Container
      → Option (ℤ × List ℤ × Container)
  take_id pincrement s counter reused b none = do
    named ← set_at (codes "blob_id") (integer (pincrement counter).0) b
    some ((pincrement counter).1, reused, named)
  take_id pincrement s counter reused b (some old) = do
    old_id ← integer_at (codes "blob_id") old
    named ← set_at (codes "blob_id") (integer old_id) b
    c ← copy_object s old named
    some (counter, reused ++ old_id ∷ [], c)

  unfoldable pub assign :
      (ℤ → ℤ × ℤ)
      → Property
      → List Container
      → ℤ
      → List ℤ
      → List Container
      → Option (ℤ × List Container)
  assign pincrement max_distance olds counter reused [] = some (counter, [])
  assign pincrement max_distance olds counter reused (b ∷ bs) = do
    min_distance ← as_double max_distance
    s ← look b
    best ← closest reused s b olds (none, min_distance)
    named ← take_id pincrement s counter reused b best.0
    rest ← assign pincrement max_distance olds named.0 named.1 bs
    some (rest.0, named.2 ∷ rest.1)

  -- A volatile object that was not found again expires.
  unfoldable pub expire : ℤ → Container → Option Container
  expire max_age b = do
    implements ← string_at (codes "implements") b
    (if lists (codes "volatile") implements
        then (do
          fid ← integer_at (codes "fiducial_id") b
          (if eq_ℤ fid (negsuc 0)
              then set_at (codes "age") (integer (to_int32 (max_age +ℤ pos 1))) b
              else some b))
        else some b)

  -- `trackBlobs`; the vector `reused` is cleared at its start and used nowhere else.
  unfoldable pub greedy_track_blobs : (ℤ → ℤ × ℤ) → TrackBlobs
  greedy_track_blobs pincrement t counter = do
    named ← assign pincrement t.max_distance t.old_blobs counter [] t.new_blobs
    bs ← each_blob (expire (as_integer t.max_age)) named.1
    some (named.0, bs)
