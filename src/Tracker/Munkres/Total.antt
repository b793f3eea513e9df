-- ===== src/Tracker/Munkres/Total.antt =====
-- src/modules/moMunkresBlobTrackerModule.cpp on blobs that are neither objects nor volatile, and that
-- are fewer than the arrays hold.
use movid.Base.{
  ℕ, zero, suc, ◌+◌, ◌<◌, ◌≤◌, ℤ, pos, negsuc, ◌≡◌, refl, ◌∙◌, ap, sym, subst, some, List, [], ◌∷◌,
  codes, length, get_elem?, lt→ltb, All, arith,
}
use movid.Blob.{Container}
use movid.Float.{Floats}
use movid.Property.{as_double}
use movid.Tracker.{Tracker, update_tracker}
use movid.Tracker.Fields.{Holds-integer_at}
use movid.Tracker.Ids.{blob_id_of}
use movid.Tracker.Sources.{Counts}
use movid.Tracker.Update.{Remembers, update_tracker-Remembers}
use movid.Tracker.Total.{IsFound, IsReady, set_id_total}
use movid.Tracker.Ready.{update-IsReady}
use movid.Tracker.Munkres.{
  Matching, normal_at, positions, blob_ids, distance_matrix, matched_id, fresh_or, name_blobs,
  munkres_track_blobs,
}
use movid.Tracker.Munkres.Matches.{IsAssignment}
use movid.Tracker.Munkres.Contract.{munkres_track_blobs-IsTracker}

-- The number of an old blob, if it is one, is below `sn`.
abbrev pub IsBelow : ℕ → ℤ → Type 0
IsBelow sn (pos j) = j < sn
IsBelow sn (negsuc j) = Unit

-- What `mtdev_match` fills in: an entry for each new blob, each the number of an old blob or
-- negative.
abbrev pub Fills : Matching → Type 0
Fills M =
    (A : List ℤ) (nn sn : ℕ)
    → (length (M.mtdev_match A nn sn) ≡ nn) × All (IsBelow sn) (M.mtdev_match A nn sn)

get_elem?_total : (zs : List ℤ) (j : ℕ) → j < length zs → (z : ℤ) × (get_elem? zs j ≡ some z)
get_elem?_total [] j h = absurd (omega arith)
get_elem?_total (z ∷ zs) zero h = (z, refl)
get_elem?_total (z ∷ zs) (suc j) h = get_elem?_total zs j (omega arith)

matched_id_total :
    (sid : List ℤ) (j : ℤ) → IsBelow (length sid) j → (z : ℤ) × (matched_id sid j ≡ some z)
matched_id_total sid (pos j) h = get_elem?_total sid j h
matched_id_total sid (negsuc j) h = (negsuc 9, refl)

module _ ⦃F : Floats⦄ where
  open F use {Double}

  positions_total :
      (bs : List Container) → All IsReady bs → (ps : List (ℤ × ℤ)) × (positions bs ≡ some ps)
  unfolding positions normal_at
  positions_total [] a = ([], refl)
  positions_total (b ∷ bs) a =
      let (ps, e) = positions_total bs a.1 in
      let p = a.0.1 in
      (
        (F.to_int (F.mul p.x (F.of_int (pos 10000))), F.to_int (F.mul p.y (F.of_int (pos 10000))))
            ∷ ps,
        rw (p.has_x, p.has_y, e) refl,
      )

  blob_ids_total :
      (bs : List Container)
      → All IsReady bs
      → (sid : List ℤ) × (blob_ids bs ≡ some sid) × (length sid ≡ length bs)
  unfolding blob_ids
  blob_ids_total [] a = ([], refl, refl)
  blob_ids_total (b ∷ bs) a =
      let (sid, e, n) = blob_ids_total bs a.1 in
      let i = Holds-integer_at (codes "blob_id") (blob_id_of b) b a.0.0.0 in
      (blob_id_of b ∷ sid, rw (i, e) refl, ap suc n)

  name_blobs_total :
      (pincrement : ℤ → ℤ × ℤ) (sid : List ℤ) (counter : ℤ) (js : List ℤ) (bs : List Container)
      → length js ≡ length bs
      → All (IsBelow (length sid)) js
      → All IsReady bs
      → (r : ℤ × List Container) × (name_blobs pincrement sid counter js bs ≡ some r)
        × All IsReady r.1
  unfolding name_blobs
  name_blobs_total pincrement sid counter js [] n k a = ((counter, []), refl, tt)
  name_blobs_total pincrement sid counter [] (b ∷ bs) n k a = absurd (omega (arith, n))
  name_blobs_total pincrement sid counter (j ∷ js) (b ∷ bs) n k a =
      let (z, e) = matched_id_total sid j k.0 in
      let chosen = fresh_or pincrement counter z in
      let (c, f, rc) = set_id_total chosen.0 b a.0 in
      let (r, g, rs) = name_blobs_total pincrement sid chosen.1 js bs (omega (arith, n)) k.1 a.1 in
      ((r.0, c ∷ r.1), rw (e, f, g) refl, (rc, rs))

  munkres_track_blobs_total :
      (M : Matching) (pincrement : ℤ → ℤ × ℤ) (t : Tracker) (counter : ℤ)
      → Fills M
      → All IsReady t.old_blobs
      → All IsReady t.new_blobs
      → length t.old_blobs < M.dim_finger
      → length t.new_blobs < M.dim_finger
      → (r : ℤ × List Container) × (munkres_track_blobs M pincrement t counter ≡ some r)
        × All IsReady r.1
  unfolding munkres_track_blobs
  munkres_track_blobs_total M pincrement t counter fills o a so sa =
      let (sid, e1, n1) = blob_ids_total t.old_blobs o in
      let (s, e2) = positions_total t.old_blobs o in
      let (p, e3) = positions_total t.new_blobs a in
      let (n2, below) = fills (distance_matrix M s p) (length t.new_blobs) (length t.old_blobs) in
      let js = M.mtdev_match (distance_matrix M s p) (length t.new_blobs) (length t.old_blobs) in
      let (r, e4, rs) =
        name_blobs_total pincrement sid counter js t.new_blobs n2
          (subst (λ (n : ℕ). All (IsBelow n) js) (sym n1) below) a in
      (
        r,
        rw
            (
              lt→ltb (length t.old_blobs) M.dim_finger so,
              lt→ltb (length t.new_blobs) M.dim_finger sa,
              e1,
              e2,
              e3,
              e4,
            )
            refl,
        rs,
      )

  -- An update of the Munkres tracker returns on blobs that have a position and are neither objects
  -- nor volatile, while the old blobs and those that came are fewer than the arrays hold. The ids
  -- that it then remembers are different positive numbers, none above the counter, as they were
  -- before; the counter grows by at most the blobs that came. `mtdev_match` fills an entry for each
  -- new blob and uses no old blob twice, `pincrement` counts below 2^31, and the counter stays there.
  pub munkres_update :
      (M : Matching) (pincrement : ℤ → ℤ × ℤ) (m : Double) (t : Tracker) (n : ℕ)
      (blobs : List Container)
      → IsAssignment M
      → Fills M
      → Counts pincrement
      → as_double t.max_rotation_speed ≡ some m
      → Remembers n t
      → All IsReady t.old_blobs
      → All IsFound blobs
      → length t.old_blobs < M.dim_finger
      → length blobs < M.dim_finger
      → n + length blobs < 2147483648
      → (u : Tracker) × (k : ℕ) × (update_tracker (munkres_track_blobs M pincrement) t (pos n) blobs
          ≡ some (u, pos k))
        × (n ≤ k)
        × (k ≤ n + length blobs)
        × Remembers k u
        × All IsReady u.old_blobs
  munkres_update M pincrement m t n blobs i fills counts k g o a so sa small =
      let (u, c, e, r) =
        update-IsReady (munkres_track_blobs M pincrement) m t (pos n) blobs k o a
          (λ olds copies n1 n2 r1 r2.
            munkres_track_blobs_total M pincrement
              (record t { old_blobs = olds; new_blobs = copies; adolescent = [] }) (pos n) fills r1
              r2 (omega (arith, n1)) (omega (arith, n2))) in
      let (j, same, lo, hi, remembers) =
        update_tracker-Remembers (munkres_track_blobs M pincrement) t u n c blobs
          (munkres_track_blobs-IsTracker M pincrement i counts) g small e in
      (u, j, e ∙ ap (λ x. some (u, x)) same, lo, hi, remembers, r)
