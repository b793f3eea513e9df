-- ===== src/Tracker/Pushes.antt =====
-- What a tracker of src/modules/moAbstractBlobTrackerModule.cpp pushes on its output.
use movid.Utils.{some_inj}
use movid.Base.{
  ℕ, ◌+◌, ◌≤◌, ◌<◌, ℤ, pos, negsuc, ◌≡◌, refl, ◌∙◌, ap, ap₂, sym, subst, true, some, List, [], ◌∷◌,
  All, arith, length,
}
use movid.Blob.{Container}
use movid.Float.{Floats}
use movid.Property.{as_integer}
use movid.Tracker.{Tracker, TrackBlobs, in_range, grown, update_tracker}
use movid.Tracker.Ids.{age_of, IsTracked, ids, Distinct}
use movid.Tracker.Update.{Remembers, IsTracker, update_tracker-Runs, update_tracker-Remembers}
use movid.Tracker.Lost.{keep, keep-All, age_at}
use movid.Tracker.Lost.Frames.{keep-Distinct}
use movid.Property.{as_double}
use movid.Tracker.Sources.{Counts}
use movid.Tracker.Total.{IsFound, IsReady}
use movid.Tracker.Greedy.{greedy_track_blobs}
use movid.Tracker.Greedy.Contract.{greedy_track_blobs-IsTracker}
use movid.Tracker.Greedy.Total.{greedy_update}

module _ ⦃F : Floats⦄ where
  grown-keep :
      (lo hi : ℕ) (bs : List Container)
      → All IsTracked bs
      → grown (pos lo) (pos hi) bs ≡ some (keep lo hi bs)
  unfolding grown
  grown-keep lo hi [] t = refl
  grown-keep lo hi (b ∷ bs) t = rw (age_at b t.0, grown-keep lo hi bs t.1) refl

  -- An age that the settings allow.
  abbrev pub IsBetweenAges : ℕ → ℕ → ℤ → Type 0
  IsBetweenAges lo hi (pos a) = (lo ≤ a) × (a ≤ hi)
  IsBetweenAges lo hi (negsuc a) = ⊥

  in_range_bounds :
      (lo hi : ℕ) (z : ℤ) → in_range (pos lo) (pos hi) z ≡ true → IsBetweenAges lo hi z
  in_range_bounds lo hi (pos a) r = ground arith
  in_range_bounds lo hi (negsuc a) r = ground arith

  -- For any contract-keeping `trackBlobs`: tracked blobs with different ids, whose ages the settings allow.
  pub update_tracker-pushes :
      (track_blobs : TrackBlobs) (t u : Tracker) (lo hi n : ℕ) (c : ℤ) (blobs : List Container)
      → IsTracker track_blobs
      → Remembers n t
      → n + length blobs < 2147483648
      → as_integer t.min_age ≡ pos lo
      → as_integer t.max_age ≡ pos hi
      → update_tracker track_blobs t (pos n) blobs ≡ some (u, c)
      → All IsTracked u.adolescent
        × Distinct (ids u.adolescent)
        × All (λ b. IsBetweenAges lo hi (age_of b)) u.adolescent
        × (u.adolescent ≡ keep lo hi u.old_blobs)
  update_tracker-pushes track_blobs t u lo hi n c blobs tracks g small young old h =
      let r = update_tracker-Runs track_blobs t u (pos n) c blobs h in
      let (m, _, _, _, good) =
        update_tracker-Remembers track_blobs t u n c blobs tracks g small h in
      let kept : u.old_blobs ≡ r.kept = ap (λ (x : Tracker). x.old_blobs) r.ends in
      let out : u.adolescent ≡ r.out = ap (λ (x : Tracker). x.adolescent) r.ends in
      let good2 = subst (λ l. All IsTracked l × Distinct (ids l)) kept (good.0, good.1) in
      let same : r.out ≡ keep lo hi r.kept = some_inj r.out (keep lo hi r.kept) (
        sym r.pushing
        ∙ ap₂ (λ a b. grown a b r.kept) young old
        ∙ grown-keep lo hi r.kept good2.0) in
      let all = out ∙ same in
      (
        subst (All IsTracked) (sym all)
            (keep-All IsTracked IsTracked lo hi r.kept (λ b x k. x) good2.0),
        subst (λ l. Distinct (ids l)) (sym all) (keep-Distinct lo hi r.kept good2.1),
        subst (All (λ b. IsBetweenAges lo hi (age_of b))) (sym all) (
            keep-All IsTracked (λ b. IsBetweenAges lo hi (age_of b)) lo hi r.kept
              (λ b x k. in_range_bounds lo hi (age_of b) k) good2.0),
        all ∙ ap (keep lo hi) (sym kept),
      )

  -- An update of the greedy tracker returns, under the conditions of its update on blobs that are
  -- neither objects nor volatile, and pushes exactly those of the blobs that it remembers whose age
  -- lies between `min_age` and `max_age`. Their ids differ.
  pub greedy_pushes :
      (pincrement : ℤ → ℤ × ℤ) (d m : F.Double) (lo hi : ℕ) (t : Tracker) (n : ℕ)
      (blobs : List Container)
      → Counts pincrement
      → as_double t.max_distance ≡ some d
      → as_double t.max_rotation_speed ≡ some m
      → as_integer t.min_age ≡ pos lo
      → as_integer t.max_age ≡ pos hi
      → Remembers n t
      → All IsReady t.old_blobs
      → All IsFound blobs
      → n + length blobs < 2147483648
      → (u : Tracker) × (c : ℤ) × (update_tracker (greedy_track_blobs pincrement) t (pos n) blobs
          ≡ some (u, c))
        × (u.adolescent ≡ keep lo hi u.old_blobs)
        × All (λ b. IsBetweenAges lo hi (age_of b)) u.adolescent
        × Distinct (ids u.adolescent)
  greedy_pushes pincrement d m lo hi t n blobs counts h k young old g o a small =
      let (u, c, e, _, _, _, _) = greedy_update pincrement d m t n blobs counts h k g o a small in
      let (_, distinct, aged, same) =
        update_tracker-pushes (greedy_track_blobs pincrement) t u lo hi n (pos c) blobs
          (greedy_track_blobs-IsTracker pincrement counts) g small young old e in
      (u, pos c, e, same, aged, distinct)
