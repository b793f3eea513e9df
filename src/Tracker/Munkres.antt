-- ===== src/Tracker/Munkres.antt =====
-- src/modules/moMunkresBlobTrackerModule.cpp: the ids by an assignment that minimises the sum of
-- the distances. `mtdev_match`, with the arrays' size `DIM_FINGER` and the distance `dist2`, is of
-- the library bitmap_munkres: given the matrix row by row and its two sizes, it gives for each new
-- blob the number of its old blob, or a negative number.
pub mod Contract
pub mod Total
pub mod Matches
use movid.Base.{
  ℕ, ℤ, pos, negsuc, to_int32, eq_ℤ, ◌-ℤ◌, Bool, Option, none, some, List, [], ◌∷◌, ◌++◌, map,
  codes, length, get_elem?, ltb, if◌then◌else◌, ◌&&◌,
}
use movid.Blob.{Container, integer_at, double_at, set_at}
use movid.Float.{Floats}
use movid.Property.{integer}
use movid.Tracker.{Tracker, TrackBlobs}
use movid.Utils.{◌>>=◌}

pub record Matching : Type 0 where
  pub dim_finger : ℕ
  pub dist2 : ℤ → ℤ → ℤ
  pub mtdev_match : List ℤ → ℕ → ℕ → List ℤ

-- `sid[j]` for `j >= 0`, else -10; `none` is a read outside the old blobs.
abbrev pub matched_id : List ℤ → ℤ → Option ℤ
matched_id sid (pos j) = get_elem? sid j
matched_id sid (negsuc j) = some (negsuc 9)

abbrev pub fresh_or : (ℤ → ℤ × ℤ) → ℤ → ℤ → ℤ × ℤ
fresh_or pincrement counter id = if eq_ℤ id (negsuc 9) then pincrement counter else (id, counter)

module _ ⦃F : Floats⦄ where
  -- x and y times `NORMALIZATION_FACTOR`
  unfoldable pub normal_at : Container → Option (ℤ × ℤ)
  normal_at b = do
    x ← double_at (codes "x") b
    y ← double_at (codes "y") b
    some (F.to_int (F.mul x (F.of_int (pos 10000))), F.to_int (F.mul y (F.of_int (pos 10000))))

  unfoldable pub positions : List Container → Option (List (ℤ × ℤ))
  positions [] = some []
  positions (b ∷ bs) = do p ← normal_at b; ps ← positions bs; some (p ∷ ps)

  unfoldable pub blob_ids : List Container → Option (List ℤ)
  blob_ids [] = some []
  blob_ids (b ∷ bs) = do id ← integer_at (codes "blob_id") b; ids ← blob_ids bs; some (id ∷ ids)

  -- The row of one old blob.
  abbrev pub distances : Matching → ℤ × ℤ → List (ℤ × ℤ) → List ℤ
  distances M old news =
      map (λ new. M.dist2 (to_int32 (new.0 -ℤ old.0)) (to_int32 (new.1 -ℤ old.1))) news

  unfoldable pub distance_matrix : Matching → List (ℤ × ℤ) → List (ℤ × ℤ) → List ℤ
  distance_matrix M [] news = []
  distance_matrix M (old ∷ olds) news = distances M old news ++ distance_matrix M olds news

  -- The last loop; the array of matches holds an entry for each new blob.
  unfoldable pub name_blobs :
      (ℤ → ℤ × ℤ) → List ℤ → ℤ → List ℤ → List Container → Option (ℤ × List Container)
  name_blobs pincrement sid counter n2s [] = some (counter, [])
  name_blobs pincrement sid counter [] (b ∷ bs) = none
  name_blobs pincrement sid counter (j ∷ n2s) (b ∷ bs) = do
    id ← matched_id sid j
    let chosen = fresh_or pincrement counter id
    c ← set_at (codes "blob_id") (integer chosen.0) b
    rest ← name_blobs pincrement sid chosen.1 n2s bs
    some (rest.0, c ∷ rest.1)

  -- `trackBlobs`; the two asserts are those of the arrays' bounds.
  unfoldable pub munkres_track_blobs : Matching → (ℤ → ℤ × ℤ) → TrackBlobs
  munkres_track_blobs M pincrement t counter =
      let sn = length t.old_blobs in
      let nn = length t.new_blobs in
      if ltb sn M.dim_finger && ltb nn M.dim_finger
      then (do
        sid ← blob_ids t.old_blobs
        s ← positions t.old_blobs
        n ← positions t.new_blobs
        name_blobs pincrement sid counter (M.mtdev_match (distance_matrix M s n) nn sn) t.new_blobs)
      else none
