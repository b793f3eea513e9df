-- ===== src/Tracker/Greedy/Contract.antt =====
-- The greedy tracker of src/modules/moGreedyBlobTrackerModule.cpp keeps the contract of
-- Tracker/Update.
use movid.Utils.{bind_some, some_inj}
use movid.Base.{
  ℕ, suc, ◌+◌, ◌≤◌, ◌<◌, ℤ, pos, ◌≡◌, refl, ◌∙◌, ap, ap₂, inl, inr, sym, subst, Option, none, some,
  List, [], ◌∷◌, ◌++◌, codes, length, All, arith,
}
use movid.Blob.{Container, integer_at, set_at}
use movid.Float.{Floats}
use movid.Property.{Property, integer, as_integer, as_double}
use movid.Tracker.{each_blob}
use movid.Tracker.Ids.{value, NotIn, Distinct, IsBetween, blob_id_of, IsTracked, ids}
use movid.Tracker.Steps.{each_blob-All2, KeepsId, All2-Good}
use movid.Tracker.Update.{IsNamed, IsTracker}
use movid.Tracker.Greedy.{
  Seen, look, closest, copy_object, take_id, assign, expire, greedy_track_blobs,
}
use movid.Tracker.Sources.{Counts, Source, Source-taken, Source-fresh, All-pair, Source-IsBetween}
use movid.Tracker.Greedy.Closest.{
  Chosen, closest-Chosen, set_id, copy_object-KeepsId, expire-KeepsId,
}

module _ ⦃F : Floats⦄ where
  open F use {Double}

  -- What the loop over the new blobs leaves, when it starts with the counter at `n`.
  record IsAssigned (n0 n : ℕ) (reused : List ℤ) (bs : List Container) (r : ℤ × List Container)
      : Type 0 where
    counter : ℕ
    counts : r.0 ≡ pos counter
    grows : n ≤ counter
    bounded : counter ≤ n + length bs
    tracked : All IsTracked r.1
    distinct : Distinct (ids r.1)
    sources : All (Source n0 reused n counter) (ids r.1)

  -- One blob before an assignment of the rest.
  add_taken :
      (n0 n : ℕ) (reused : List ℤ) (b c : Container) (bs : List Container)
      (rest r : ℤ × List Container)
      → n0 ≤ n
      → IsBetween 0 n0 (blob_id_of c)
      → NotIn (blob_id_of c) reused
      → IsTracked c
      → IsAssigned n0 n (reused ++ blob_id_of c ∷ []) bs rest
      → r ≡ (rest.0, c ∷ rest.1)
      → IsAssigned n0 n reused (b ∷ bs) r
  add_taken n0 n reused b c bs rest r h old new t a e =
      let (s, d) =
        All-pair (Source n0 (reused ++ blob_id_of c ∷ []) n a.counter)
          (Source n0 reused n a.counter) (blob_id_of c) (ids rest.1)
          (λ y. Source-taken n0 n a.counter reused (blob_id_of c) y h old) a.sources in
      subst (IsAssigned n0 n reused (b ∷ bs)) (sym e) record {
        counter = a.counter;
        counts = a.counts;
        grows = a.grows;
        bounded = omega (arith, a.bounded);
        tracked = (t, a.tracked);
        distinct = (d, a.distinct);
        sources = (inl (old, new), s);
      }

  add_fresh :
      (n0 n : ℕ) (reused : List ℤ) (b c : Container) (bs : List Container)
      (rest r : ℤ × List Container)
      → n0 ≤ n
      → blob_id_of c ≡ pos (suc n)
      → IsTracked c
      → IsAssigned n0 (suc n) reused bs rest
      → r ≡ (rest.0, c ∷ rest.1)
      → IsAssigned n0 n reused (b ∷ bs) r
  add_fresh n0 n reused b c bs rest r h new t a e =
      let (s, d) =
        All-pair (Source n0 reused (suc n) a.counter) (Source n0 reused n a.counter) (pos (suc n))
          (ids rest.1) (λ y. Source-fresh n0 n a.counter reused y h) a.sources in
      let between : IsBetween n a.counter (pos (suc n)) = (omega arith, a.grows) in
      subst (IsAssigned n0 n reused (b ∷ bs)) (sym e) record {
        counter = a.counter;
        counts = a.counts;
        grows = omega (arith, a.grows);
        bounded = omega (arith, a.bounded);
        tracked = (t, a.tracked);
        distinct = (subst (λ z. NotIn z (ids rest.1)) (sym new) d, a.distinct);
        sources = (subst (Source n0 reused n a.counter) (sym new) (inr between), s);
      }

  -- The two ways in which a blob gets its id.
  take_id-none :
      (pincrement : ℤ → ℤ × ℤ) (s : Seen) (n : ℕ) (reused : List ℤ) (b : Container)
      (r : ℤ × List ℤ × Container)
      → Counts pincrement
      → suc n < 2147483648
      → IsTracked b
      → take_id pincrement s (pos n) reused b none ≡ some r
      → (r.0 ≡ pos (suc n)) × (r.1 ≡ reused) × IsTracked r.2 × (blob_id_of r.2 ≡ pos (suc n))
  unfolding take_id
  take_id-none pincrement s n reused b r k small t h =
      let (c, e, h1) =
        bind_some (set_at (codes "blob_id") (integer (pincrement (pos n)).0) b) _ r h in
      let (tc, i) = set_id _ b c t e in
      let same = some_inj _ r h1 in
      subst
        (λ (x : ℤ × List ℤ × Container).
          (x.0 ≡ pos (suc n)) × (x.1 ≡ reused) × IsTracked x.2 × (blob_id_of x.2 ≡ pos (suc n)))
        same
        (ap (λ (p : ℤ × ℤ). p.1) (k n small), refl, tc, i ∙ ap (λ (p : ℤ × ℤ). p.0) (k n small))

  take_id-some :
      (pincrement : ℤ → ℤ × ℤ) (s : Seen) (n : ℕ) (reused : List ℤ) (b old : Container)
      (r : ℤ × List ℤ × Container)
      → IsTracked b
      → take_id pincrement s (pos n) reused b (some old) ≡ some r
      → (r.0 ≡ pos n)
        × (r.1 ≡ reused ++ blob_id_of old ∷ [])
        × IsTracked r.2
        × (blob_id_of r.2 ≡ blob_id_of old)
  unfolding take_id
  take_id-some pincrement s n reused b old r t h =
      let (id, e, h1) = bind_some (integer_at (codes "blob_id") old) _ r h in
      let (d, e2, h2) = bind_some (set_at (codes "blob_id") (integer id) b) _ r h1 in
      let (c, e3, h3) = bind_some (copy_object s old d) _ r h2 in
      let (td, i) = set_id id b d t e2 in
      let (tc, j) = copy_object-KeepsId s old d c e3 td in
      let found : id ≡ blob_id_of old = sym (ap value e) in
      subst
        (λ (x : ℤ × List ℤ × Container).
          (x.0 ≡ pos n)
          × (x.1 ≡ reused ++ blob_id_of old ∷ [])
          × IsTracked x.2
          × (blob_id_of x.2 ≡ blob_id_of old))
        (some_inj _ r h3) (refl, ap (λ z. reused ++ z ∷ []) found, tc, j ∙ i ∙ found)

  assign_none :
      (pincrement : ℤ → ℤ × ℤ) (p : Property) (olds : List Container) (n0 n : ℕ) (reused : List ℤ)
      (r : ℤ × List Container)
      → assign pincrement p olds (pos n) reused [] ≡ some r
      → IsAssigned n0 n reused [] r
  unfolding assign
  assign_none pincrement p olds n0 n reused r h =
      subst (IsAssigned n0 n reused []) (some_inj (pos n, []) r h) record {
        counter = n;
        counts = refl;
        grows = omega arith;
        bounded = omega arith;
        tracked = tt;
        distinct = tt;
        sources = tt;
      }

  -- The rest of the blobs, once the first has its id.
  assign_next :
      (pincrement : ℤ → ℤ × ℤ) (p : Property) (olds : List Container) (n0 n : ℕ) (reused : List ℤ)
      (s : Seen) (b : Container) (bs : List Container) (o : Option Container)
      (named : ℤ × List ℤ × Container) (rest r : ℤ × List Container)
      → Counts pincrement
      → n0 ≤ n
      → n + suc (length bs) < 2147483648
      → IsTracked b
      → Chosen (λ x. IsBetween 0 n0 (blob_id_of x) × NotIn (blob_id_of x) reused) o
      → take_id pincrement s (pos n) reused b o ≡ some named
      → assign pincrement p olds named.0 named.1 bs ≡ some rest
      → ((m : ℕ) (taken : List ℤ)
          → n0 ≤ m
          → m + length bs < 2147483648
          → assign pincrement p olds (pos m) taken bs ≡ some rest
          → IsAssigned n0 m taken bs rest)
      → r ≡ (rest.0, named.2 ∷ rest.1)
      → IsAssigned n0 n reused (b ∷ bs) r
  assign_next pincrement p olds n0 n reused s b bs none named rest r k le small t c h g ih e =
      let (x, y, tc, i) = take_id-none pincrement s n reused b named k (omega arith) t h in
      let g2 = sym (ap₂ (λ m l. assign pincrement p olds m l bs) x y) ∙ g in
      add_fresh n0 n reused b named.2 bs rest r le i tc
        (ih (suc n) reused (omega arith) (omega arith) g2) e
  assign_next pincrement p olds n0 n reused s b bs (some old) named rest r k le small t c h g ih e =
      let (x, y, tc, i) = take_id-some pincrement s n reused b old named t h in
      let y2 = y ∙ ap (λ z. reused ++ z ∷ []) (sym i) in
      let g2 = sym (ap₂ (λ m l. assign pincrement p olds m l bs) x y2) ∙ g in
      add_taken n0 n reused b named.2 bs rest r le (subst (IsBetween 0 n0) (sym i) c.0)
        (subst (λ z. NotIn z reused) (sym i) c.1) tc (ih n _ le (omega arith) g2) e

  assign_lem :
      (pincrement : ℤ → ℤ × ℤ) (p : Property) (olds : List Container) (n0 n : ℕ) (reused : List ℤ)
      (bs : List Container) (r : ℤ × List Container)
      → Counts pincrement
      → All (λ o. IsBetween 0 n0 (blob_id_of o)) olds
      → All IsTracked bs
      → n0 ≤ n
      → n + length bs < 2147483648
      → assign pincrement p olds (pos n) reused bs ≡ some r
      → IsAssigned n0 n reused bs r
  unfolding assign
  assign_lem pincrement p olds n0 n reused [] r k o t le small h =
      assign_none pincrement p olds n0 n reused r h
  assign_lem pincrement p olds n0 n reused (b ∷ bs) r k o t le small h =
      let (d, e0, h0) = bind_some (as_double p) _ r h in
      let (s, e1, h1) = bind_some (look b) _ r h0 in
      let (best, e2, h2) = bind_some (closest reused s b olds (none, d)) _ r h1 in
      let (named, e3, h3) = bind_some (take_id pincrement s (pos n) reused b best.0) _ r h2 in
      let (rest, e4, h4) = bind_some (assign pincrement p olds named.0 named.1 bs) _ r h3 in
      let chosen =
        closest-Chosen (λ x. IsBetween 0 n0 (blob_id_of x)) reused s b olds (none, d) best e2 o
          tt in
      assign_next pincrement p olds n0 n reused s b bs best.0 named rest r k le small t.0 chosen e3
        e4
        (λ m taken le2 small2 g.
          assign_lem pincrement p olds n0 m taken bs rest k o t.1 le2 small2 g)
        (sym (some_inj _ r h4))

  All-ids : (P : ℤ → Type 0) (bs : List Container) → All P (ids bs) → All (λ b. P (blob_id_of b)) bs
  All-ids P [] h = h
  All-ids P (b ∷ bs) h = (h.0, All-ids P bs h.1)

  -- The greedy tracker keeps the contract of `trackBlobs`: it gives every new blob an id of its own,
  -- from an old blob that no other new blob took or fresh from the counter, for a `pincrement` that
  -- counts below 2^31.
  pub greedy_track_blobs-IsTracker :
      (pincrement : ℤ → ℤ × ℤ) → Counts pincrement → IsTracker (greedy_track_blobs pincrement)
  unfolding greedy_track_blobs
  greedy_track_blobs-IsTracker pincrement k t n r tracked good small h =
      let (named, e2, h2) =
        bind_some (assign pincrement t.max_distance t.old_blobs (pos n) [] t.new_blobs) _ r h in
      let (bs, e3, h3) = bind_some (each_blob (expire (as_integer t.max_age)) named.1) _ r h2 in
      let a =
        assign_lem pincrement t.max_distance t.old_blobs n n [] t.new_blobs named k
          (All-ids (IsBetween 0 n) t.old_blobs good.2) tracked (omega arith) small e2 in
      let (tbs, same) =
        All2-Good named.1 bs
          (each_blob-All2 KeepsId _ (expire-KeepsId (as_integer t.max_age)) named.1 bs e3)
          a.tracked in
      subst (IsNamed t.old_blobs t.new_blobs n) (some_inj (named.0, bs) r h3) record {
        counter = a.counter;
        counts = a.counts;
        grows = a.grows;
        bounded = a.bounded;
        good = (
          tbs,
          subst Distinct (sym same) a.distinct,
          subst (All (IsBetween 0 a.counter)) (sym same)
              (Source-IsBetween n a.counter (ids named.1) a.grows a.sources),
        );
      }
