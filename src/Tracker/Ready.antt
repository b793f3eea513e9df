-- ===== src/Tracker/Ready.antt =====
-- `update` of src/modules/moAbstractBlobTrackerModule.cpp returns when `trackBlobs` does, on blobs that
-- are neither objects nor volatile.
use movid.Utils.{bind_some, some_inj}
use movid.Base.{suc, ℤ, ◌≡◌, refl, ◌∙◌, ap, sym, Option, some, List, [], ◌∷◌, length, All}
use movid.Blob.{Container}
use movid.Float.{Floats}
use movid.Property.{as_integer, as_double}
use movid.Tracker.{
  Tracker, TrackBlobs, each_blob, track_angle, track_angles, grow_older, copy, update_tracker,
}
use movid.Tracker.Ids.{IsTracked}
use movid.Tracker.Lost.{grown_total}
use movid.Tracker.Total.{
  IsFound, IsReady, each_total, grow_older-IsReady, track_angle_total, copy_total, retain-IsReady,
}

module _ ⦃F : Floats⦄ where
  open F use {Double}

  length-each_blob :
      (f : Container → Option Container) (bs cs : List Container)
      → each_blob f bs ≡ some cs
      → length cs ≡ length bs
  unfolding each_blob
  length-each_blob f [] cs h = ap length (sym (some_inj [] cs h))
  length-each_blob f (b ∷ bs) cs h =
      let (c, e, h1) = bind_some (f b) _ cs h in
      let (ds, g, h2) = bind_some (each_blob f bs) _ cs h1 in
      ap length (sym (some_inj (c ∷ ds) cs h2)) ∙ ap suc (length-each_blob f bs ds g)

  track_angles_total :
      (m : Double) (t : Tracker) (bs : List Container)
      → as_double t.max_rotation_speed ≡ some m
      → All IsReady bs
      → (cs : List Container) × (track_angles t bs ≡ some cs) × All IsReady cs
  unfolding track_angles
  track_angles_total m t bs h a =
      let (cs, e, r) =
        each_total IsReady IsReady (track_angle (F.to_int m) t.old_blobs)
          (track_angle_total (F.to_int m) t.old_blobs) bs a in
      (cs, rw (h, e) refl, r)

  IsTracked-only : (bs : List Container) → All IsReady bs → All IsTracked bs
  IsTracked-only [] a = tt
  IsTracked-only (b ∷ bs) a = (a.0.0, IsTracked-only bs a.1)

  pub update-IsReady :
      (track_blobs : TrackBlobs) (m : Double) (t : Tracker) (counter : ℤ) (blobs : List Container)
      → as_double t.max_rotation_speed ≡ some m
      → All IsReady t.old_blobs
      → All IsFound blobs
      → ((olds copies : List Container)
          → length olds ≡ length t.old_blobs
          → length copies ≡ length blobs
          → All IsReady olds
          → All IsReady copies
          → (r : ℤ × List Container) × (track_blobs
                (record t { old_blobs = olds; new_blobs = copies; adolescent = [] })
                counter
              ≡ some r)
            × All IsReady r.1)
      → (u : Tracker) × (c : ℤ) × (update_tracker track_blobs t counter blobs ≡ some (u, c))
        × All IsReady u.old_blobs
  unfolding update_tracker
  update-IsReady track_blobs m t counter blobs k o a names =
      let (olds, e1, r1) = each_total IsReady IsReady grow_older grow_older-IsReady t.old_blobs o in
      let (copies, e2, r2) = each_total IsFound IsReady copy copy_total blobs a in
      let aged = record t { old_blobs = olds; new_blobs = copies; adolescent = [] } in
      let (named, e3, r3) =
        names olds copies (length-each_blob grow_older t.old_blobs olds e1)
          (length-each_blob copy blobs copies e2) r1 r2 in
      let (turned, e4, r4) = track_angles_total m aged named.1 k r3 in
      let (kept, e5, r5) =
        retain-IsReady (as_integer t.min_age) (as_integer t.max_age) olds turned r1 r4 in
      let (out, e6) =
        grown_total (as_integer t.min_age) (as_integer t.max_age) kept (IsTracked-only kept r5) in
      (
        record aged { old_blobs = kept; new_blobs = olds; adolescent = out },
        named.0,
        rw (e1, e2, e3, e4, e5, e6) refl,
        r5,
      )
