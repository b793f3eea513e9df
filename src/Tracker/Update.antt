-- ===== src/Tracker/Update.antt =====
-- `update` of src/modules/moAbstractBlobTrackerModule.cpp over any `trackBlobs` that keeps its side
-- of the contract: the ids of the blobs that the tracker remembers and of those that it pushes.
use movid.Utils.{bind_some, some_inj}
use movid.Base.{
  ℕ, ◌+◌, ◌≤◌, ◌<◌, ℤ, pos, ◌≡◌, ◌∙◌, ap, sym, subst, some, List, [], ◌∷◌, length, All, arith,
}
use movid.Base.Dict.{text_key}
use movid.Blob.{Container}
use movid.Float.{Floats}
use movid.Property.{as_integer}
use movid.Tracker.{
  Tracker, TrackBlobs, each_blob, track_angles, grow_older, copy, retain, grown, update_tracker,
}
use movid.Tracker.Ids.{Distinct, IsBetween, IsTracked, ids, Good, retain-Good}
use movid.Tracker.Steps.{
  each_blob-All2, KeepsId, All2-Good, grow_older-KeepsId, track_angles-Good, copies-IsTracked,
}
use movid.Tracker.Sources.{IsBetween-mono}

module _ ⦃F : Floats⦄ where
  -- What `trackBlobs` may return when the counter stood at `n`.
  pub record IsNamed (olds news : List Container) (n : ℕ) (r : ℤ × List Container) : Type 0 where
    pub counter : ℕ
    pub counts : r.0 ≡ pos counter
    pub grows : n ≤ counter
    pub bounded : counter ≤ n + length news
    pub good : Good (IsBetween 0 counter) r.1

  -- The contract of `trackBlobs`.
  abbrev pub IsTracker : TrackBlobs → Type 0
  IsTracker track_blobs =
      (t : Tracker) (n : ℕ) (r : ℤ × List Container)
      → All IsTracked t.new_blobs
      → Good (IsBetween 0 n) t.old_blobs
      → n + length t.new_blobs < 2147483648
      → track_blobs t (pos n) ≡ some r
      → IsNamed t.old_blobs t.new_blobs n r

  -- What is remembered from one frame to the next.
  abbrev pub Remembers : ℕ → Tracker → Type 0
  Remembers n t = Good (IsBetween 0 n) t.old_blobs

  Good-ids :
      (P : ℤ → Type 0) (bs cs : List Container)
      → All IsTracked cs × (ids cs ≡ ids bs)
      → Good P bs
      → Good P cs
  Good-ids P bs cs (t, e) g = (t, subst Distinct (sym e) g.1, subst (All P) (sym e) g.2)

  pub All-mono : (n m : ℕ) (zs : List ℤ) → n ≤ m → All (IsBetween 0 n) zs → All (IsBetween 0 m) zs
  All-mono n m [] h a = a
  All-mono n m (z ∷ zs) h a = (IsBetween-mono n m z h a.0, All-mono n m zs h a.1)

  -- The rest of the update, after `trackBlobs` returned.
  update_after :
      (n : ℕ) (aged : Tracker) (lo hi : ℤ) (r : ℤ × List Container) (turned kept : List Container)
      → Good (IsBetween 0 n) aged.old_blobs
      → IsNamed aged.old_blobs aged.new_blobs n r
      → track_angles aged r.1 ≡ some turned
      → retain lo hi aged.old_blobs turned ≡ some kept
      → (m : ℕ) × (r.0 ≡ pos m)
        × (n ≤ m)
        × (m ≤ n + length aged.new_blobs)
        × Good (IsBetween 0 m) kept
  update_after n aged lo hi r turned kept g named h k = (
    named.counter,
    named.counts,
    named.grows,
    named.bounded,
    retain-Good (IsBetween 0 named.counter) lo hi aged.old_blobs turned kept k g.0
        (All-mono n named.counter (ids aged.old_blobs) named.grows g.2)
        (track_angles-Good (IsBetween 0 named.counter) aged r.1 turned h named.good),
  )

  -- The steps of an update that returned.
  pub record Runs (track_blobs : TrackBlobs) (t u : Tracker) (counter c : ℤ)
      (blobs : List Container) : Type 0 where
    pub olds : List Container
    pub copies : List Container
    pub named : ℤ × List Container
    pub turned : List Container
    pub kept : List Container
    pub out : List Container
    pub growing : each_blob grow_older t.old_blobs ≡ some olds
    pub copying : each_blob copy blobs ≡ some copies
    pub naming :
        track_blobs (record t { old_blobs = olds; new_blobs = copies; adolescent = [] }) counter
        ≡ some named
    pub turning :
        track_angles (record t { old_blobs = olds; new_blobs = copies; adolescent = [] }) named.1
        ≡ some turned
    pub keeping : retain (as_integer t.min_age) (as_integer t.max_age) olds turned ≡ some kept
    pub pushing : grown (as_integer t.min_age) (as_integer t.max_age) kept ≡ some out
    pub ends : u ≡ record t { old_blobs = kept; new_blobs = olds; adolescent = out }
    pub counts : c ≡ named.0

  pub update_tracker-Runs :
      (track_blobs : TrackBlobs) (t u : Tracker) (counter c : ℤ) (blobs : List Container)
      → update_tracker track_blobs t counter blobs ≡ some (u, c)
      → Runs track_blobs t u counter c blobs
  unfolding update_tracker
  update_tracker-Runs track_blobs t u counter c blobs h =
      let (olds, e1, h1) = bind_some (each_blob grow_older t.old_blobs) _ (u, c) h in
      let (copies, e2, h2) = bind_some (each_blob copy blobs) _ (u, c) h1 in
      let aged = record t { old_blobs = olds; new_blobs = copies; adolescent = [] } in
      let (r, e3, h3) = bind_some (track_blobs aged counter) _ (u, c) h2 in
      let (turned, e4, h4) = bind_some (track_angles aged r.1) _ (u, c) h3 in
      let (kept, e5, h5) =
        bind_some (retain (as_integer t.min_age) (as_integer t.max_age) olds turned) _ (u, c) h4 in
      let (out, e6, h6) =
        bind_some (grown (as_integer t.min_age) (as_integer t.max_age) kept) _ (u, c) h5 in
      let same = sym (some_inj _ (u, c) h6) in
      record {
        olds = olds;
        copies = copies;
        named = r;
        turned = turned;
        kept = kept;
        out = out;
        growing = e1;
        copying = e2;
        naming = e3;
        turning = e4;
        keeping = e5;
        pushing = e6;
        ends = ap (λ (p : Tracker × ℤ). p.0) same;
        counts = ap (λ (p : Tracker × ℤ). p.1) same;
      }

  pub grow_older-Good :
      (P : ℤ → Type 0) (bs cs : List Container)
      → each_blob grow_older bs ≡ some cs
      → Good P bs
      → Good P cs
  grow_older-Good P bs cs h g =
      Good-ids P bs cs
        (All2-Good bs cs (each_blob-All2 KeepsId grow_older grow_older-KeepsId bs cs h) g.0) g

  -- The ids that a tracker remembers are different positive numbers, none above the counter, and an
  -- update that returns keeps this, whatever blobs come in: for any `trackBlobs` that keeps its
  -- contract, while the counter stays below 2^31. The counter grows by at most the blobs that came.
  pub update_tracker-Remembers :
      (track_blobs : TrackBlobs) (t u : Tracker) (n : ℕ) (c : ℤ) (blobs : List Container)
      → IsTracker track_blobs
      → Remembers n t
      → n + length blobs < 2147483648
      → update_tracker track_blobs t (pos n) blobs ≡ some (u, c)
      → (m : ℕ) × (c ≡ pos m) × (n ≤ m) × (m ≤ n + length blobs) × Remembers m u
  update_tracker-Remembers track_blobs t u n c blobs tracks g small h =
      let r = update_tracker-Runs track_blobs t u (pos n) c blobs h in
      let aged = record t { old_blobs = r.olds; new_blobs = r.copies; adolescent = [] } in
      let old_good = grow_older-Good (IsBetween 0 n) t.old_blobs r.olds r.growing g in
      let (tracked, size) = copies-IsTracked blobs r.copies r.copying in
      let named = tracks aged n r.named tracked old_good (omega (arith, size)) r.naming in
      let (m, a, b, d, k) =
        update_after n aged (as_integer t.min_age) (as_integer t.max_age) r.named r.turned r.kept
          old_good named r.turning r.keeping in
      (m, r.counts ∙ a, b, omega (arith, size, d), subst (Remembers m) (sym r.ends) k)
