-- ===== src/Tracker/Lost/Frames.antt =====
-- A tracker of src/modules/moAbstractBlobTrackerModule.cpp forgets what is not seen any more.
use movid.Base.{
  ℕ, zero, suc, ◌+◌, ◌<◌, ℤ, pos, negsuc, ◌≡◌, refl, ◌∙◌, ap, ◌≢◌, sym, subst, Bool, true, false,
  some, List, [], ◌∷◌, if◌then◌else◌, All, arith,
}
use movid.Blob.{Container}
use movid.Float.{Floats}
use movid.Property.{as_integer, as_double}
use movid.Tracker.{Tracker, TrackBlobs, in_range, each_blob, track_angles, grown, update_tracker}
use movid.Tracker.Ids.{NotIn, Distinct, blob_id_of, age_of, IsTracked, ids}
use movid.Tracker.Update.{Remembers}
use movid.Utils.{◌>>=◌, some_inj}
use movid.Tracker.Lost.{
  Apart-none, quiet, keep, keep-All, retain-keep, IsAged, IsAtLeast, in_range-IsAged,
  in_range_first, Older, Older-total, grown_total,
}
use movid.Tracker.Greedy.{assign, greedy_track_blobs}

module _ ⦃F : Floats⦄ where
  -- What a frame leaves when no blob comes in, for a `trackBlobs` that leaves no blobs alone.
  abbrev LeavesNone : TrackBlobs → Tracker → ℤ → Type 0
  LeavesNone track_blobs t counter =
      (olds : List Container)
      → track_blobs (record t { old_blobs = olds; new_blobs = []; adolescent = [] }) counter
        ≡ some (counter, [])

  -- The settings that the frames read, and what they remember.
  record IsSteady (lo hi : ℕ) (t : Tracker) : Type 0 where
    oldest : as_integer t.max_age ≡ pos hi
    youngest : as_integer t.min_age ≡ pos lo
    tracked : All IsTracked t.old_blobs
    distinct : Distinct (ids t.old_blobs)

  record Frame (lo hi : ℕ) (track_blobs : TrackBlobs) (t : Tracker) (counter : ℤ) : Type 0 where
    olds : List Container
    out : List Container
    older : Older t.old_blobs olds
    pushes : grown (pos lo) (pos hi) (keep lo hi olds) ≡ some out
    runs :
        update_tracker track_blobs t counter []
        ≡ some
            (record t { old_blobs = keep lo hi olds; new_blobs = olds; adolescent = out }, counter)

  Frame-total :
      (lo hi : ℕ) (track_blobs : TrackBlobs) (t : Tracker) (counter : ℤ) (m : F.Double)
      → as_double t.max_rotation_speed ≡ some m
      → IsSteady lo hi t
      → LeavesNone track_blobs t counter
      → Frame lo hi track_blobs t counter
  unfolding update_tracker each_blob track_angles
  Frame-total lo hi track_blobs t counter m sp s l =
      let (olds, o) = Older-total t.old_blobs s.tracked in
      let kept =
        retain-keep lo hi olds [] o.tracked tt (subst Distinct (sym o.same) s.distinct)
          (Apart-none olds) in
      let (out, e) =
        grown_total (pos lo) (pos hi) (keep lo hi olds)
          (keep-All IsTracked IsTracked lo hi olds (λ b h k. h) o.tracked) in
      record {
        olds = olds;
        out = out;
        older = o;
        pushes = e;
        runs = rw (o.grows, l olds, sp, s.oldest, s.youngest, kept, e) refl;
      }

  keep_head-NotIn :
      (z : ℤ) (g : Bool) (b : Container) (bs : List Container)
      → blob_id_of b ≢ z
      → NotIn z (ids bs)
      → NotIn z (ids (if g then b ∷ bs else bs))
  keep_head-NotIn z true b bs h k = (h, k)
  keep_head-NotIn z false b bs h k = k

  keep-NotIn :
      (z : ℤ) (lo hi : ℕ) (bs : List Container) → NotIn z (ids bs) → NotIn z (ids (keep lo hi bs))
  keep-NotIn z lo hi [] h = tt
  keep-NotIn z lo hi (b ∷ bs) h =
      keep_head-NotIn z (in_range (pos lo) (pos hi) (age_of b)) b (keep lo hi bs) h.0
        (keep-NotIn z lo hi bs h.1)

  keep_head-Distinct :
      (g : Bool) (b : Container) (bs : List Container)
      → NotIn (blob_id_of b) (ids bs)
      → Distinct (ids bs)
      → Distinct (ids (if g then b ∷ bs else bs))
  keep_head-Distinct true b bs h k = (h, k)
  keep_head-Distinct false b bs h k = k

  pub keep-Distinct :
      (lo hi : ℕ) (bs : List Container) → Distinct (ids bs) → Distinct (ids (keep lo hi bs))
  keep-Distinct lo hi [] h = tt
  keep-Distinct lo hi (b ∷ bs) h =
      keep_head-Distinct (in_range (pos lo) (pos hi) (age_of b)) b (keep lo hi bs)
        (keep-NotIn (blob_id_of b) lo hi bs h.0) (keep-Distinct lo hi bs h.1)

  -- The tracker after a frame.
  abbrev after :
      {lo hi : ℕ} {track_blobs : TrackBlobs} (t : Tracker) {counter : ℤ}
      → Frame lo hi track_blobs t counter
      → Tracker
  after {lo} {hi} t f = record t {
    old_blobs = keep lo hi f.olds;
    new_blobs = f.olds;
    adolescent = f.out;
  }

  after-IsSteady :
      (lo hi : ℕ) (track_blobs : TrackBlobs) (t : Tracker) (counter : ℤ)
      (f : Frame lo hi track_blobs t counter)
      → IsSteady lo hi t
      → IsSteady lo hi (after t f)
  after-IsSteady lo hi track_blobs t counter f s = record {
    oldest = s.oldest;
    youngest = s.youngest;
    tracked = keep-All IsTracked IsTracked lo hi f.olds (λ b h k. h) f.older.tracked;
    distinct = keep-Distinct lo hi f.olds (subst Distinct (sym f.older.same) s.distinct);
  }

  none_aged : (hi : ℕ) (bs : List Container) → All (λ b. IsAged (suc hi) hi (age_of b)) bs → bs ≡ []
  none_aged hi [] h = refl
  none_aged hi (b ∷ bs) h = absurd (too_old hi (age_of b) h.0)
    where
      too_old : (hi : ℕ) (z : ℤ) → IsAged (suc hi) hi z → ⊥
      too_old hi (pos a) h = omega arith
      too_old hi (negsuc a) h = h

  -- What the tracker pushed is what it remembers and is old enough.
  abbrev IsPushed : ℕ → ℕ → Tracker → Type 0
  IsPushed lo hi t = grown (pos lo) (pos hi) t.old_blobs ≡ some t.adolescent

  nothing_pushed :
      (lo hi : ℕ) (t : Tracker) → IsPushed lo hi t → t.old_blobs ≡ [] → t.adolescent ≡ []
  unfolding grown
  nothing_pushed lo hi t p e =
      sym (some_inj [] t.adolescent (sym (ap (grown (pos lo) (pos hi)) e) ∙ p))

  fades :
      (lo hi : ℕ) (track_blobs : TrackBlobs) (m : F.Double) (j k : ℕ) (t : Tracker) (counter : ℤ)
      → hi < 2147483647
      → j + k ≡ suc hi
      → as_double t.max_rotation_speed ≡ some m
      → IsSteady lo hi t
      → LeavesNone track_blobs t counter
      → All (λ b. IsAged k hi (age_of b)) t.old_blobs
      → IsPushed lo hi t
      → (u : Tracker) × (quiet j track_blobs t counter ≡ some (u, counter))
        × (u.old_blobs ≡ [])
        × (u.adolescent ≡ [])
  unfolding quiet
  fades lo hi track_blobs m zero k t counter small e sp s l a p =
      let now_k : k ≡ suc hi = omega (arith, e) in
      let none_left =
        none_aged hi t.old_blobs
          (subst (λ (n : ℕ). All (λ b. IsAged n hi (age_of b)) t.old_blobs) now_k a) in
      (t, refl, none_left, nothing_pushed lo hi t p none_left)
  fades lo hi track_blobs m (suc j) k t counter small e sp s l a p =
      let f = Frame-total lo hi track_blobs t counter m sp s l in
      let aged =
        keep-All (λ b. IsAtLeast (suc k) (age_of b)) (λ b. IsAged (suc k) hi (age_of b)) lo hi
          f.olds (λ b h r. in_range-IsAged (suc k) lo hi (age_of b) h r)
          (f.older.ages k hi small a) in
      let (u, q, x, y) =
        fades lo hi track_blobs m j (suc k) (after t f) counter small (omega (arith, e)) sp
          (after-IsSteady lo hi track_blobs t counter f s) l aged f.pushes in
      (u, rw f.runs q, x, y)

  greedy_track_blobs-none :
      (pincrement : ℤ → ℤ × ℤ) (t : Tracker) (counter : ℤ)
      → LeavesNone (greedy_track_blobs pincrement) t counter
  unfolding greedy_track_blobs assign each_blob
  greedy_track_blobs-none pincrement t counter olds = refl

  quiet_first :
      (hi : ℕ) (track_blobs : TrackBlobs) (t : Tracker) (counter : ℤ) (r q : Tracker × ℤ)
      → update_tracker track_blobs t counter [] ≡ some r
      → quiet (suc hi) track_blobs r.0 r.1 ≡ some q
      → quiet (hi + 2) track_blobs t counter ≡ some q
  quiet_first hi track_blobs t counter r q h k =
      let count : hi + 2 ≡ suc (suc hi) = omega arith in
      ap (λ (x : ℕ). quiet x track_blobs t counter) count
      ∙ unfold quiet in (ap (λ o. o >>= (λ x. quiet (suc hi) track_blobs x.0 x.1)) h ∙ k)

  everything : (bs : List Container) → All (λ b. Unit {0}) bs
  everything [] = tt
  everything (b ∷ bs) = (tt, everything bs)

  -- When the finder sees nothing, every update of the greedy tracker returns, and after
  -- `max_age` + 2 of them the tracker remembers no blob and pushes none, whatever the ages were; the
  -- counter stands. This is for a tracker that remembers different ids, with 0 <= `max_age` <
  -- 2^31 - 1, `min_age` not negative, and `max_rotation_speed` not a list of points.
  pub greedy_forgets :
      (pincrement : ℤ → ℤ × ℤ) (m : F.Double) (lo hi n : ℕ) (t : Tracker) (counter : ℤ)
      → Remembers n t
      → as_integer t.min_age ≡ pos lo
      → as_integer t.max_age ≡ pos hi
      → hi < 2147483647
      → as_double t.max_rotation_speed ≡ some m
      → (u : Tracker) × (quiet (hi + 2) (greedy_track_blobs pincrement) t counter
          ≡ some (u, counter))
        × (u.old_blobs ≡ [])
        × (u.adolescent ≡ [])
  greedy_forgets pincrement m lo hi n t counter g young old small sp =
      let track_blobs = greedy_track_blobs pincrement in
      let l = greedy_track_blobs-none pincrement t counter in
      let s : IsSteady lo hi t = record {
        oldest = old;
        youngest = young;
        tracked = g.0;
        distinct = g.1;
      } in
      let f = Frame-total lo hi track_blobs t counter m sp s l in
      let aged =
        keep-All (λ b. Unit {0}) (λ b. IsAged 0 hi (age_of b)) lo hi f.olds
          (λ b h r. in_range_first lo hi (age_of b) r) (everything f.olds) in
      let (u, q, x, y) =
        fades lo hi track_blobs m (suc hi) 0 (after t f) counter small (omega arith) sp
          (after-IsSteady lo hi track_blobs t counter f s) l aged f.pushes in
      (u, quiet_first hi track_blobs t counter _ (u, counter) f.runs q, x, y)
