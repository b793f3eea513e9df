-- ===== src/Tracker/Lost.antt =====
-- What a tracker of src/modules/moAbstractBlobTrackerModule.cpp does with blobs that are not seen
-- any more: `update` frame by frame, with no blob coming in.
pub mod Frames
use movid.Base.{
  ℕ, zero, suc, ◌+◌, ◌≤◌, ◌<◌, ℤ, pos, negsuc, eq_ℤ, eq_ℤ_iff, ltb_ℤ, to_int32, to_int32_id, ◌+ℤ◌,
  ◌≡◌, refl, ◌∙◌, ap, ap₂, ◌≢◌, inl, inr, sym, subst, Bool, true, false, not, ◌&&◌, Option, none,
  some, List, [], ◌∷◌, ◌++◌, codes, map, if◌then◌else◌, if-both, All, arith, Bool-cases, text_eq,
}
use mathlib.Core.List.{append_assoc, append-nil}
use movid.Blob.{Container, integer_at, set_at}
use movid.Float.{Floats}
use movid.Property.{integer, as_integer, as_double}
use movid.Tracker.{
  Tracker, TrackBlobs, in_range, each_blob, track_angles, grow_older, meet, retain, grown,
  update_tracker,
}
use movid.Tracker.Fields.{Holds, Holds-integer_at, set_at_same, set_at_other}
use movid.Tracker.Ids.{
  NotIn, Distinct, IsBetween, blob_id_of, age_of, IsTracked, IsTracked-intro, ids,
}
use movid.Tracker.Update.{Remembers}
use movid.Utils.{◌>>=◌}

module _ ⦃F : Floats⦄ where
  -- Frames in which the finder sees nothing.
  unfoldable pub quiet : ℕ → TrackBlobs → Tracker → ℤ → Option (Tracker × ℤ)
  quiet zero track_blobs t counter = some (t, counter)
  quiet (suc k) track_blobs t counter = do
    r ← update_tracker track_blobs t counter []
    quiet k track_blobs r.0 r.1

  abbrev pub keep : ℕ → ℕ → List Container → List Container
  keep lo hi [] = []
  keep lo hi (b ∷ bs) =
      let rest = keep lo hi bs in if in_range (pos lo) (pos hi) (age_of b) then b ∷ rest else rest

  id_at : (b : Container) → IsTracked b → integer_at (codes "blob_id") b ≡ some (blob_id_of b)
  id_at b t = Holds-integer_at (codes "blob_id") (blob_id_of b) b t.0

  pub age_at : (b : Container) → IsTracked b → integer_at (codes "age") b ≡ some (age_of b)
  age_at b t = Holds-integer_at (codes "age") (age_of b) b t.1

  grow_older_total :
      (b : Container)
      → IsTracked b
      → (c : Container) × (grow_older b ≡ some c)
        × IsTracked c
        × (blob_id_of c ≡ blob_id_of b)
        × (age_of c ≡ to_int32 (age_of b +ℤ pos 1))
  unfolding grow_older
  grow_older_total b t =
      let z = to_int32 (age_of b +ℤ pos 1) in
      let (c, e, k) = set_at_same (codes "age") (age_of b) z b t.1 in
      let n =
        set_at_other (codes "age") (codes "blob_id") (integer z) b c (unfold text_eq in refl) e
        ∙ t.0 in
      let (tc, i, j) = IsTracked-intro (blob_id_of b) z c n k in
      (
        c,
        ap (λ o. o >>= (λ a. set_at (codes "age") (integer (to_int32 (a +ℤ pos 1))) b)) (age_at b t)
            ∙ e,
        tc,
        i,
        j,
      )

  meet_keep :
      (lo hi : ℤ) (old : Container) (bs : List Container)
      → All IsTracked bs
      → NotIn (blob_id_of old) (ids bs)
      → meet lo hi (blob_id_of old) (age_of old) old bs
        ≡ some (bs ++ (if in_range lo hi (age_of old) then old ∷ [] else []))
  unfolding meet
  meet_keep lo hi old [] t n = refl
  meet_keep lo hi old (b ∷ bs) t n =
      rw (id_at b t.0) (elim (Bool-cases (eq_ℤ (blob_id_of old) (blob_id_of b))) [
        | inl e ↦ absurd (n.0 (sym ((eq_ℤ_iff (blob_id_of old) (blob_id_of b)).0 e)))
        | inr e ↦ rw (e, meet_keep lo hi old bs t.1 n.1) refl
      ])

  -- The ids of the second list are not in the first.
  abbrev pub Apart : List Container → List Container → Type 0
  Apart bs cs = All (λ c. NotIn (blob_id_of c) (ids bs)) cs

  pub Apart-none : (cs : List Container) → Apart [] cs
  Apart-none [] = tt
  Apart-none (c ∷ cs) = (tt, Apart-none cs)

  NotIn-add :
      (z : ℤ) (b : Container) (bs : List Container)
      → NotIn z (ids bs)
      → blob_id_of b ≢ z
      → NotIn z (ids (bs ++ b ∷ []))
  NotIn-add z b [] h n = (n, tt)
  NotIn-add z b (x ∷ bs) h n = (h.0, NotIn-add z b bs h.1 n)

  Apart-add :
      (b : Container) (bs cs : List Container)
      → Apart bs cs
      → NotIn (blob_id_of b) (ids cs)
      → Apart (bs ++ b ∷ []) cs
  Apart-add b bs [] h n = tt
  Apart-add b bs (c ∷ cs) h n =
      (NotIn-add (blob_id_of c) b bs h.0 (λ e. n.0 (sym e)), Apart-add b bs cs h.1 n.1)

  All-add :
      (b : Container) (bs : List Container)
      → All IsTracked bs
      → IsTracked b
      → All IsTracked (bs ++ b ∷ [])
  All-add b [] h t = (t, tt)
  All-add b (c ∷ bs) h t = (h.0, All-add b bs h.1 t)

  retain_branch :
      (lo hi : ℤ) (g : Bool) (old : Container) (olds bs rest : List Container)
      → (g ≡ true → retain lo hi olds (bs ++ old ∷ []) ≡ some ((bs ++ old ∷ []) ++ rest))
      → (g ≡ false → retain lo hi olds bs ≡ some (bs ++ rest))
      → retain lo hi olds (bs ++ (if g then old ∷ [] else []))
        ≡ some (bs ++ (if g then old ∷ rest else rest))
  retain_branch lo hi true old olds bs rest h k = h refl ∙ ap some (append_assoc bs (old ∷ []) rest)
  retain_branch lo hi false old olds bs rest h k = ap (retain lo hi olds) (append-nil bs) ∙ k refl

  pub retain-keep :
      (lo hi : ℕ) (olds bs : List Container)
      → All IsTracked olds
      → All IsTracked bs
      → Distinct (ids olds)
      → Apart bs olds
      → retain (pos lo) (pos hi) olds bs ≡ some (bs ++ keep lo hi olds)
  unfolding retain
  retain-keep lo hi [] bs t u d a = ap some (sym (append-nil bs))
  retain-keep lo hi (old ∷ olds) bs t u d a =
      rw (id_at old t.0, age_at old t.0, meet_keep (pos lo) (pos hi) old bs u a.0)
        (retain_branch (pos lo) (pos hi) (in_range (pos lo) (pos hi) (age_of old)) old olds bs
          (keep lo hi olds)
          (λ g.
            retain-keep lo hi olds (bs ++ old ∷ []) t.1 (All-add old bs u t.0) d.1
              (Apart-add old bs olds a.1 d.0))
          (λ g. retain-keep lo hi olds bs t.1 u d.1 a.1))

  -- The ages of the blobs, from below and from above.
  abbrev pub IsAged : ℕ → ℕ → ℤ → Type 0
  IsAged k hi (pos a) = (k ≤ a) × (a ≤ hi)
  IsAged k hi (negsuc a) = ⊥

  abbrev pub IsAtLeast : ℕ → ℤ → Type 0
  IsAtLeast k (pos a) = k ≤ a
  IsAtLeast k (negsuc a) = ⊥

  pub in_range-IsAged :
      (k lo hi : ℕ) (z : ℤ) → IsAtLeast k z → in_range (pos lo) (pos hi) z ≡ true → IsAged k hi z
  in_range-IsAged k lo hi (pos a) h r = ground arith
  in_range-IsAged k lo hi (negsuc a) h r = h

  pub in_range_first : (lo hi : ℕ) (z : ℤ) → in_range (pos lo) (pos hi) z ≡ true → IsAged 0 hi z
  in_range_first lo hi (pos a) r = ground arith
  in_range_first lo hi (negsuc a) r = ground arith

  IsAged-next :
      (k hi : ℕ) (z : ℤ)
      → hi < 2147483647
      → IsAged k hi z
      → IsAtLeast (suc k) (to_int32 (z +ℤ pos 1))
  IsAged-next k hi (pos a) h g =
      subst (IsAtLeast (suc k)) (sym (to_int32_id (pos (a + 1)) (omega arith))) (omega arith)
  IsAged-next k hi (negsuc a) h g = absurd g

  keep_head :
      (R : Container → Type 0) (g : Bool) (b : Container) (bs : List Container)
      → (g ≡ true → R b)
      → All R bs
      → All R (if g then b ∷ bs else bs)
  keep_head R true b bs h a = (h refl, a)
  keep_head R false b bs h a = a

  pub keep-All :
      (P Q : Container → Type 0) (lo hi : ℕ) (bs : List Container)
      → ((b : Container) → P b → in_range (pos lo) (pos hi) (age_of b) ≡ true → Q b)
      → All P bs
      → All Q (keep lo hi bs)
  keep-All P Q lo hi [] h a = tt
  keep-All P Q lo hi (b ∷ bs) h a =
      keep_head Q (in_range (pos lo) (pos hi) (age_of b)) b (keep lo hi bs) (h b a.0)
        (keep-All P Q lo hi bs h a.1)

  -- The old blobs after one frame, with their ages.
  pub record Older (bs cs : List Container) : Type 0 where
    pub grows : each_blob grow_older bs ≡ some cs
    pub tracked : All IsTracked cs
    pub same : ids cs ≡ ids bs
    pub ages :
        (k hi : ℕ)
        → hi < 2147483647
        → All (λ b. IsAged k hi (age_of b)) bs
        → All (λ c. IsAtLeast (suc k) (age_of c)) cs

  pub Older-total : (bs : List Container) → All IsTracked bs → (cs : List Container) × Older bs cs
  unfolding each_blob
  Older-total [] t = ([], record { grows = refl; tracked = tt; same = refl; ages = λ k hi h a. tt })
  Older-total (b ∷ bs) t =
      let (c, e, tc, i, j) = grow_older_total b t.0 in
      let (cs, o) = Older-total bs t.1 in
      (
        c ∷ cs,
        record {
          grows = rw (e, o.grows) refl;
          tracked = (tc, o.tracked);
          same = ap₂ (λ x xs. x ∷ xs) i o.same;
          ages = λ k hi h a. (
            subst (IsAtLeast (suc k)) (sym j) (IsAged-next k hi (age_of b) h a.0),
            o.ages k hi h a.1,
          );
        },
      )

  pub grown_total :
      (lo hi : ℤ) (bs : List Container)
      → All IsTracked bs
      → (out : List Container) × (grown lo hi bs ≡ some out)
  unfolding grown
  grown_total lo hi [] t = ([], refl)
  grown_total lo hi (b ∷ bs) t =
      let (out, e) = grown_total lo hi bs t.1 in
      (if in_range lo hi (age_of b) then b ∷ out else out, rw (age_at b t.0, e) refl)
