-- ===== src/Tracker/Munkres/Contract.antt =====
-- The tracker of src/modules/moMunkresBlobTrackerModule.cpp keeps the contract of Tracker/Update,
-- for a matching that uses no old blob twice.
use movid.Base.{
  ℕ, suc, ◌+◌, ◌≤◌, ◌<◌, ℤ, pos, negsuc, eq_ℤ, ◌≡◌, refl, ◌∙◌, ap, ap₂, inl, inr, sym, subst, Bool,
  true, false, ◌&&◌, Option, none, some, List, [], ◌∷◌, codes, length, get_elem?, ltb,
  if◌then◌else◌, All, arith,
}
use movid.Blob.{Container, integer_at, set_at}
use movid.Float.{Floats}
use movid.Property.{integer}
use movid.Tracker.Ids.{value, NotIn, Distinct, IsBetween, blob_id_of, IsTracked, ids}
use movid.Tracker.Sources.{Counts, All-pair}
use movid.Tracker.Update.{IsTracker}
use movid.Tracker.Greedy.Closest.{set_id}
use movid.Tracker.Munkres.{
  Matching, positions, blob_ids, distance_matrix, name_blobs, munkres_track_blobs,
}
use movid.Utils.{◌>>=◌, bind_some, some_inj}
use movid.Tracker.Munkres.Matches.{
  get_elem?-All, IsInjective, IsAssignment, Origin, Origin-matched, Origin-fresh, Origin-IsBetween,
}

module _ ⦃F : Floats⦄ where
  -- What the loop over the new blobs leaves, when it starts with the counter at `n`.
  record IsAssigned (n : ℕ) (js sid : List ℤ) (bs : List Container) (r : ℤ × List Container)
      : Type 0 where
    counter : ℕ
    counts : r.0 ≡ pos counter
    grows : n ≤ counter
    bounded : counter ≤ n + length bs
    tracked : All IsTracked r.1
    distinct : Distinct (ids r.1)
    origins : All (Origin js sid n counter) (ids r.1)

  add_matched :
      (n0 n j : ℕ) (js sid : List ℤ) (b c : Container) (bs : List Container)
      (rest : ℤ × List Container)
      → n0 ≤ n
      → Distinct sid
      → All (IsBetween 0 n0) sid
      → NotIn (pos j) js
      → get_elem? sid j ≡ some (blob_id_of c)
      → IsTracked c
      → IsAssigned n js sid bs rest
      → IsAssigned n (pos j ∷ js) sid (b ∷ bs) (rest.0, c ∷ rest.1)
  add_matched n0 n j js sid b c bs rest le d o k g t a =
      let (s, e) =
        All-pair (Origin js sid n a.counter) (Origin (pos j ∷ js) sid n a.counter) (blob_id_of c)
          (ids rest.1) (λ y. Origin-matched js sid n0 n a.counter j (blob_id_of c) y le d o k g)
          a.origins in
      record {
        counter = a.counter;
        counts = a.counts;
        grows = a.grows;
        bounded = omega (arith, a.bounded);
        tracked = (t, a.tracked);
        distinct = (e, a.distinct);
        origins = (inl (inl g), s);
      }

  add_fresh :
      (n0 n i : ℕ) (js sid : List ℤ) (b c : Container) (bs : List Container)
      (rest : ℤ × List Container)
      → n0 ≤ n
      → All (IsBetween 0 n0) sid
      → blob_id_of c ≡ pos (suc n)
      → IsTracked c
      → IsAssigned (suc n) js sid bs rest
      → IsAssigned n (negsuc i ∷ js) sid (b ∷ bs) (rest.0, c ∷ rest.1)
  add_fresh n0 n i js sid b c bs rest le o new t a =
      let (s, e) =
        All-pair (Origin js sid (suc n) a.counter) (Origin (negsuc i ∷ js) sid n a.counter)
          (pos (suc n)) (ids rest.1) (λ y. Origin-fresh js sid n0 n a.counter i y le o) a.origins in
      let between : IsBetween n a.counter (pos (suc n)) = (omega arith, a.grows) in
      record {
        counter = a.counter;
        counts = a.counts;
        grows = omega (arith, a.grows);
        bounded = omega (arith, a.bounded);
        tracked = (t, a.tracked);
        distinct = (subst (λ z. NotIn z (ids rest.1)) (sym new) e, a.distinct);
        origins = (subst (Origin (negsuc i ∷ js) sid n a.counter) (sym new) (inr between), s);
      }

  not_sentinel : (n0 : ℕ) (z : ℤ) → IsBetween 0 n0 z → eq_ℤ z (negsuc 9) ≡ false
  not_sentinel n0 (pos k) h = refl
  not_sentinel n0 (negsuc k) h = absurd h

  -- The steps of a round that matched.
  matched_steps :
      (pincrement : ℤ → ℤ × ℤ) (counter x : ℤ) (j : ℕ) (js sid : List ℤ) (b : Container)
      (bs : List Container) (r : ℤ × List Container)
      → get_elem? sid j ≡ some x
      → eq_ℤ x (negsuc 9) ≡ false
      → name_blobs pincrement sid counter (pos j ∷ js) (b ∷ bs) ≡ some r
      → (c : Container) × (rest : ℤ × List Container) × (set_at (codes "blob_id") (integer x) b
          ≡ some c)
        × (name_blobs pincrement sid counter js bs ≡ some rest)
        × ((rest.0, c ∷ rest.1) ≡ r)
  unfolding name_blobs
  matched_steps pincrement counter x j js sid b bs r e f h =
      let round : name_blobs pincrement sid counter (pos j ∷ js) (b ∷ bs) ≡ (
          set_at (codes "blob_id") (integer x) b >>= (λ c.
            name_blobs pincrement sid counter js bs >>= (λ rest. some (rest.0, c ∷ rest.1)))) =
        rw (e, f) refl in
      let (c, e2, h3) = bind_some (set_at (codes "blob_id") (integer x) b) _ r (sym round ∙ h) in
      let (rest, e3, h4) = bind_some (name_blobs pincrement sid counter js bs) _ r h3 in
      (c, rest, e2, e3, some_inj _ r h4)

  name_blobs_lem :
      (pincrement : ℤ → ℤ × ℤ) (n0 n : ℕ) (js sid : List ℤ) (bs : List Container)
      (r : ℤ × List Container)
      → Counts pincrement
      → IsInjective js
      → Distinct sid
      → All (IsBetween 0 n0) sid
      → All IsTracked bs
      → n0 ≤ n
      → n + length bs < 2147483648
      → name_blobs pincrement sid (pos n) js bs ≡ some r
      → IsAssigned n js sid bs r
  unfolding name_blobs
  name_blobs_lem pincrement n0 n js sid [] r k i d o t le small h =
      subst (IsAssigned n js sid []) (some_inj (pos n, []) r h) record {
        counter = n;
        counts = refl;
        grows = omega arith;
        bounded = omega arith;
        tracked = tt;
        distinct = tt;
        origins = tt;
      }
  name_blobs_lem pincrement n0 n [] sid (b ∷ bs) r k i d o t le small h = cc
  name_blobs_lem pincrement n0 n (negsuc j ∷ js) sid (b ∷ bs) r k i d o t le small h =
      let (c, e2, h2) =
        bind_some (set_at (codes "blob_id") (integer (pincrement (pos n)).0) b) _ r h in
      let (rest, e3, h3) =
        bind_some (name_blobs pincrement sid (pincrement (pos n)).1 js bs) _ r h2 in
      let step = k n (omega arith) in
      let (tc, same) = set_id _ b c t.0 e2 in
      let e4 = ap (λ (p : ℤ × ℤ). name_blobs pincrement sid p.1 js bs) (sym step) ∙ e3 in
      subst (IsAssigned n (negsuc j ∷ js) sid (b ∷ bs)) (some_inj _ r h3) (
        add_fresh n0 n j js sid b c bs rest le o (same ∙ ap (λ (p : ℤ × ℤ). p.0) step) tc (
          name_blobs_lem pincrement n0 (suc n) js sid bs rest k i d o t.1 (omega arith)
            (omega arith) e4))
  name_blobs_lem pincrement n0 n (pos j ∷ js) sid (b ∷ bs) r k i d o t le small h =
      let (x, e1, h1) = bind_some (get_elem? sid j) _ r h in
      let within = get_elem?-All (IsBetween 0 n0) sid j x o e1 in
      let (c, rest, e2, e3, ends) =
        matched_steps pincrement (pos n) x j js sid b bs r e1 (not_sentinel n0 x within) h in
      let (tc, same) = set_id x b c t.0 e2 in
      subst (IsAssigned n (pos j ∷ js) sid (b ∷ bs)) ends (
        add_matched n0 n j js sid b c bs rest le d o i.0 (e1 ∙ ap some (sym same)) tc
          (name_blobs_lem pincrement n0 n js sid bs rest k i.1 d o t.1 le (omega arith) e3))

  blob_ids-ids : (bs : List Container) (sid : List ℤ) → blob_ids bs ≡ some sid → sid ≡ ids bs
  unfolding blob_ids
  blob_ids-ids [] sid h = sym (some_inj [] sid h)
  blob_ids-ids (b ∷ bs) sid h =
      let (id, e, h1) = bind_some (integer_at (codes "blob_id") b) _ sid h in
      let (rest, f, h2) = bind_some (blob_ids bs) _ sid h1 in
      sym (some_inj (id ∷ rest) sid h2)
      ∙ ap₂ (λ x xs. x ∷ xs) (sym (ap value e)) (blob_ids-ids bs rest f)

  in_bounds :
      (t : Bool) (o : Option (ℤ × List Container)) (r : ℤ × List Container)
      → (if t then o else none) ≡ some r
      → o ≡ some r
  in_bounds true o r h = h
  in_bounds false o r h = cc

  pub munkres_track_blobs-IsTracker :
      (M : Matching) (pincrement : ℤ → ℤ × ℤ)
      → IsAssignment M
      → Counts pincrement
      → IsTracker (munkres_track_blobs M pincrement)
  unfolding munkres_track_blobs
  munkres_track_blobs-IsTracker M pincrement i k t n r tracked good small h =
      let h0 =
        in_bounds (ltb (length t.old_blobs) M.dim_finger && ltb (length t.new_blobs) M.dim_finger) _
          r h in
      let (sid, e1, h1) = bind_some (blob_ids t.old_blobs) _ r h0 in
      let (s, e2, h2) = bind_some (positions t.old_blobs) _ r h1 in
      let (p, e3, h3) = bind_some (positions t.new_blobs) _ r h2 in
      let js = M.mtdev_match (distance_matrix M s p) (length t.new_blobs) (length t.old_blobs) in
      let same = blob_ids-ids t.old_blobs sid e1 in
      let o = subst (All (IsBetween 0 n)) (sym same) good.2 in
      let a =
        name_blobs_lem pincrement n n js sid t.new_blobs r k
          (i (distance_matrix M s p) (length t.new_blobs) (length t.old_blobs))
          (subst Distinct (sym same) good.1) o tracked (omega arith) small h3 in
      record {
        counter = a.counter;
        counts = a.counts;
        grows = a.grows;
        bounded = a.bounded;
        good = (
          a.tracked,
          a.distinct,
          Origin-IsBetween js sid n a.counter (ids r.1) a.grows o a.origins,
        );
      }
