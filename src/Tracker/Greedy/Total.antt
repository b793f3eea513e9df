-- ===== src/Tracker/Greedy/Total.antt =====
-- src/modules/moGreedyBlobTrackerModule.cpp on blobs that are neither objects nor volatile: an update
-- returns, and so does every update after it.
use movid.Base.{
  ℕ, ◌+◌, ◌<◌, ◌≤◌, ℤ, pos, eq_ℤ, ◌≡◌, refl, ◌∙◌, ap, inl, inr, false, Option, none, some, List, [],
  ◌∷◌, ◌++◌, codes, length, All, any, Bool-cases,
}
use movid.Blob.{Container, lists}
use movid.Float.{Floats}
use movid.Property.{Property, as_integer, as_double}
use movid.Tracker.{Tracker, update_tracker}
use movid.Tracker.Fields.{Holds-integer_at}
use movid.Tracker.Ids.{blob_id_of}
use movid.Tracker.Sources.{Counts}
use movid.Tracker.Update.{Remembers, update_tracker-Remembers}
use movid.Tracker.Total.{IsPlain, IsFound, IsReady, set_id_total, each_total}
use movid.Tracker.Greedy.{
  Seen, is_object, look, distance, candidate, closer, closest, copy_object, take_id, assign, expire,
  greedy_track_blobs,
}
use movid.Tracker.Ready.{update-IsReady}
use movid.Tracker.Greedy.Closest.{Chosen, closest-Chosen}
use movid.Tracker.Greedy.Contract.{greedy_track_blobs-IsTracker}

module _ ⦃F : Floats⦄ where
  open F use {Double}

  look_total : (b : Container) → IsPlain b → (s : Seen) × (look b ≡ some s) × (s.new_is_fid ≡ false)
  unfolding look
  look_total b p = (
    record {
      new_x = p.x;
      new_y = p.y;
      new_is_fid = is_object p.words;
      new_is_volatile = lists (codes "volatile") p.words;
    },
    rw (p.has_x, p.has_y, p.says) refl,
    p.plain.no_object,
  )

  distance_total :
      (s : Seen) (old : Container) → IsPlain old → (d : Double) × (distance s old ≡ some d)
  unfolding distance
  distance_total s old p = (
    F.sqrt (
        F.add (F.pow (F.sub p.x s.new_x) (F.of_int (pos 2)))
          (F.pow (F.sub p.y s.new_y) (F.of_int (pos 2)))),
    rw (p.has_x, p.has_y) refl,
  )

  candidate_total :
      (reused : List ℤ) (s : Seen) (b old : Container)
      → s.new_is_fid ≡ false
      → IsReady old
      → (o : Option Double) × (candidate reused s b old ≡ some o)
  unfolding candidate distance distance_total
  candidate_total reused s b old n (t, p) =
      let e = Holds-integer_at (codes "blob_id") (blob_id_of old) old t.0 in
      elim (Bool-cases (any (λ id. eq_ℤ id (blob_id_of old)) reused)) [
        | inl u ↦ (none, rw (e, u) refl)
        | inr u ↦
            let (d, f) = distance_total s old p in
            (some d, rw (e, u, p.says, p.plain.no_object, n, f) refl)
      ]

  closest_total :
      (reused : List ℤ) (s : Seen) (b : Container) (olds : List Container)
      (best : Option Container × Double)
      → s.new_is_fid ≡ false
      → All IsReady olds
      → (r : Option Container × Double) × (closest reused s b olds best ≡ some r)
  unfolding closest
  closest_total reused s b [] best n a = (best, refl)
  closest_total reused s b (old ∷ olds) best n a =
      let (o, e) = candidate_total reused s b old n a.0 in
      let (r, f) = closest_total reused s b olds (closer old o best) n a.1 in (r, rw e f)

  take_id_total :
      (pincrement : ℤ → ℤ × ℤ) (s : Seen) (counter : ℤ) (reused : List ℤ) (b : Container)
      (o : Option Container)
      → IsReady b
      → Chosen IsReady o
      → (r : ℤ × List ℤ × Container) × (take_id pincrement s counter reused b o ≡ some r)
        × IsReady r.2
  unfolding take_id copy_object
  take_id_total pincrement s counter reused b none r c =
      let (n, e, rn) = set_id_total (pincrement counter).0 b r in
      (((pincrement counter).1, reused, n), rw e refl, rn)
  take_id_total pincrement s counter reused b (some old) r (t, p) =
      let i = Holds-integer_at (codes "blob_id") (blob_id_of old) old t.0 in
      let (n, e, rn) = set_id_total (blob_id_of old) b r in
      ((counter, reused ++ blob_id_of old ∷ [], n), rw (i, e, p.says, p.plain.no_object) refl, rn)

  Chosen-left :
      (P : Container → Type 0) (Q : Container → Type 0) (o : Option Container)
      → Chosen (λ x. P x × Q x) o
      → Chosen P o
  Chosen-left P Q none c = tt
  Chosen-left P Q (some x) c = c.0

  assign_total :
      (pincrement : ℤ → ℤ × ℤ) (p : Property) (d : Double) (olds : List Container) (counter : ℤ)
      (reused : List ℤ) (bs : List Container)
      → as_double p ≡ some d
      → All IsReady olds
      → All IsReady bs
      → (r : ℤ × List Container) × (assign pincrement p olds counter reused bs ≡ some r)
        × All IsReady r.1
  unfolding assign
  assign_total pincrement p d olds counter reused [] h o a = ((counter, []), refl, tt)
  assign_total pincrement p d olds counter reused (b ∷ bs) h o a =
      let (s, e1, n) = look_total b a.0.1 in
      let (best, e2) = closest_total reused s b olds (none, d) n o in
      let chosen =
        Chosen-left IsReady _ best.0
          (closest-Chosen IsReady reused s b olds (none, d) best e2 o tt) in
      let (named, e3, rn) = take_id_total pincrement s counter reused b best.0 a.0 chosen in
      let (rest, e4, rs) = assign_total pincrement p d olds named.0 named.1 bs h o a.1 in
      ((rest.0, named.2 ∷ rest.1), rw (h, e1, e2, e3, e4) refl, (rn, rs))

  expire_total :
      (max_age : ℤ) (b : Container)
      → IsReady b
      → (c : Container) × (expire max_age b ≡ some c) × IsReady c
  unfolding expire
  expire_total max_age b r = (b, rw (r.1.says, r.1.plain.no_volatile) refl, r)

  greedy_track_blobs_total :
      (pincrement : ℤ → ℤ × ℤ) (d : Double) (t : Tracker) (counter : ℤ)
      → as_double t.max_distance ≡ some d
      → All IsReady t.old_blobs
      → All IsReady t.new_blobs
      → (r : ℤ × List Container) × (greedy_track_blobs pincrement t counter ≡ some r)
        × All IsReady r.1
  unfolding greedy_track_blobs
  greedy_track_blobs_total pincrement d t counter h o a =
      let (named, e, rn) =
        assign_total pincrement t.max_distance d t.old_blobs counter [] t.new_blobs h o a in
      let (bs, f, rs) =
        each_total IsReady IsReady (expire (as_integer t.max_age))
          (expire_total (as_integer t.max_age)) named.1 rn in
      ((named.0, bs), rw (e, f) refl, rs)

  update_total :
      (pincrement : ℤ → ℤ × ℤ) (d m : Double) (t : Tracker) (counter : ℤ) (blobs : List Container)
      → as_double t.max_distance ≡ some d
      → as_double t.max_rotation_speed ≡ some m
      → All IsReady t.old_blobs
      → All IsFound blobs
      → (u : Tracker) × (c : ℤ) × (update_tracker (greedy_track_blobs pincrement) t counter blobs
          ≡ some (u, c))
        × All IsReady u.old_blobs
  update_total pincrement d m t counter blobs h k o a =
      update-IsReady (greedy_track_blobs pincrement) m t counter blobs k o a
        (λ olds copies n1 n2 r1 r2.
          greedy_track_blobs_total pincrement d
            (record t { old_blobs = olds; new_blobs = copies; adolescent = [] }) counter h r1 r2)

  -- An update of the greedy tracker returns on blobs that have a position and are neither objects
  -- nor volatile. It then remembers such blobs again, so that each later update returns too. The ids
  -- that it remembers are different positive numbers, none above the counter, as they were before;
  -- the counter grows by at most the blobs that came. `pincrement` counts below 2^31, the counter
  -- stays there, and the two settings that are read as numbers are not lists of points.
  pub greedy_update :
      (pincrement : ℤ → ℤ × ℤ) (d m : Double) (t : Tracker) (n : ℕ) (blobs : List Container)
      → Counts pincrement
      → as_double t.max_distance ≡ some d
      → as_double t.max_rotation_speed ≡ some m
      → Remembers n t
      → All IsReady t.old_blobs
      → All IsFound blobs
      → n + length blobs < 2147483648
      → (u : Tracker) × (k : ℕ) × (update_tracker (greedy_track_blobs pincrement) t (pos n) blobs
          ≡ some (u, pos k))
        × (n ≤ k)
        × (k ≤ n + length blobs)
        × Remembers k u
        × All IsReady u.old_blobs
  greedy_update pincrement d m t n blobs counts h k g o a small =
      let (u, c, e, r) = update_total pincrement d m t (pos n) blobs h k o a in
      let (j, same, lo, hi, remembers) =
        update_tracker-Remembers (greedy_track_blobs pincrement) t u n c blobs
          (greedy_track_blobs-IsTracker pincrement counts) g small e in
      (u, j, e ∙ ap (λ x. some (u, x)) same, lo, hi, remembers, r)
