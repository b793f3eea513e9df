-- ===== src/Tracker/Steps.antt =====
-- The steps that src/modules/moAbstractBlobTrackerModule.cpp makes on single blobs: growing older,
-- copying and turning keep the two properties of a tracker, or make them.
use movid.Utils.{bind_some}
use movid.Base.{
  Text, ℤ, pos, to_int32, ◌+ℤ◌, ◌≡◌, refl, ◌∙◌, sym, subst, suc, false, Option, none, some, List,
  [], ◌∷◌, codes, length, text_eq, if-both, All, arith,
}
use movid.Base.Dict.{find, text_key}
use movid.Blob.{Container, lists, clone, integer_at, string_at, double_at, set_at, put_at}
use movid.Float.{Floats}
use movid.Property.{Value, integer, as_double}
use movid.Tracker.{
  Tracker, each_blob, find_blob, turn, turn_blob, track_angle, track_angles, grow_older, copy,
}
use movid.Tracker.Fields.{All2, set_at_other, put_at_other, put_at_same}
use movid.Tracker.Ids.{Distinct, blob_id_of, age_of, IsTracked, ids, IsTracked-intro, set_age, Good}

module _ ⦃F : Floats⦄ where
  pub each_blob-All2 :
      (R : Container → Container → Type 0) (f : Container → Option Container)
      → ((b c : Container) → f b ≡ some c → R b c)
      → (bs cs : List Container) → each_blob f bs ≡ some cs
      → All2 R bs cs
  unfolding each_blob
  each_blob-All2 R f k [] cs h = let same : [] ≡ cs = cc in subst (All2 R []) same tt
  each_blob-All2 R f k (b ∷ bs) cs h =
      let (c, e, h1) = bind_some (f b) _ cs h in
      let (ds, g, h2) = bind_some (each_blob f bs) _ cs h1 in
      let same : c ∷ ds ≡ cs = cc in
      subst (All2 R (b ∷ bs)) same (k b c e, each_blob-All2 R f k bs ds g)

  -- A step that keeps a tracked blob tracked and its id.
  abbrev pub KeepsId : Container → Container → Type 0
  KeepsId b c = IsTracked b → IsTracked c × (blob_id_of c ≡ blob_id_of b)

  pub All2-Good :
      (bs cs : List Container)
      → All2 KeepsId bs cs
      → All IsTracked bs
      → All IsTracked cs × (ids cs ≡ ids bs)
  All2-Good [] [] h t = (tt, refl)
  All2-Good [] (c ∷ cs) h t = absurd h
  All2-Good (b ∷ bs) [] h t = absurd h
  All2-Good (b ∷ bs) (c ∷ cs) (k, h) (tb, t) =
      let (tc, e) = k tb in let (tcs, es) = All2-Good bs cs h t in ((tc, tcs), rw (e, es) refl)

  pub grow_older-KeepsId : (b c : Container) → grow_older b ≡ some c → KeepsId b c
  unfolding grow_older
  grow_older-KeepsId b c h t =
      let (age, e, h1) = bind_some (integer_at (codes "age") b) _ c h in
      let (tc, i, _) = set_age (to_int32 (age +ℤ pos 1)) b c t h1 in (tc, i)

  -- A step that leaves both properties alone.
  abbrev pub Same : Container → Container → Type 0
  Same b c =
      (find (codes "blob_id") c ≡ find (codes "blob_id") b)
      × (find (codes "age") c ≡ find (codes "age") b)

  pub Same-KeepsId : (b c : Container) → Same b c → KeepsId b c
  Same-KeepsId b c h t =
      let (tc, i, _) = IsTracked-intro (blob_id_of b) (age_of b) c (h.0 ∙ t.0) (h.1 ∙ t.1) in
      (tc, i)

  pub put_at-Same :
      (n : Text) (v : Value) (a b : Container)
      → text_eq n (codes "blob_id") ≡ false
      → text_eq n (codes "age") ≡ false
      → Same a b
      → Same a (put_at n v b)
  put_at-Same n v a b h k s = (put_at_other n _ v b h ∙ s.0, put_at_other n _ v b k ∙ s.1)

  pub set_at-Same :
      (n : Text) (v : Value) (a b c : Container)
      → text_eq n (codes "blob_id") ≡ false
      → text_eq n (codes "age") ≡ false
      → set_at n v b ≡ some c
      → Same a b
      → Same a c
  set_at-Same n v a b c h k e s =
      (set_at_other n _ v b c h e ∙ s.0, set_at_other n _ v b c k e ∙ s.1)

  pub Same-refl : (b : Container) → Same b b
  Same-refl b = (refl, refl)

  turn-Same :
      (d angle : ℤ) (b c : Container) (o : Option Container) → turn d angle b o ≡ some c → Same b c
  unfolding turn text_eq
  turn-Same d angle b c none h = subst (Same b) (cc) (
      put_at-Same (codes "fallen_over") (integer (pos 0)) b _ refl refl
        (put_at-Same (codes "last_angle") (integer angle) b b refl refl (Same-refl b)))
  turn-Same d angle b c (some old) h =
      let (f, e, h1) = bind_some (integer_at (codes "fallen_over") old) _ c h in
      let (l, e2, h2) = bind_some (integer_at (codes "last_angle") old) _ c h1 in
      set_at-Same (codes "angle") _ b _ c refl refl h2 (
        put_at-Same (codes "last_angle") (integer angle) b _ refl refl
          (put_at-Same (codes "fallen_over") _ b b refl refl (Same-refl b)))

  turn_blob-Same :
      (d : ℤ) (olds : List Container) (b c : Container) → turn_blob d olds b ≡ some c → Same b c
  unfolding turn_blob
  turn_blob-Same d olds b c h =
      let (x, e, h1) = bind_some (double_at (codes "angle") b) _ c h in
      let (id, e2, h2) = bind_some (integer_at (codes "blob_id") b) _ c h1 in
      let (o, e3, h3) = bind_some (find_blob id olds) _ c h2 in turn-Same d _ b c o h3

  track_angle-Same :
      (d : ℤ) (olds : List Container) (b c : Container) → track_angle d olds b ≡ some c → Same b c
  unfolding track_angle
  track_angle-Same d olds b c h =
      let (words, e, h1) = bind_some (string_at (codes "implements") b) _ c h in
      if-both (λ o. o ≡ some c → Same b c) (lists (codes "volatileangle") words) _ _
        (turn_blob-Same d olds b c) (λ same. subst (Same b) (cc) (Same-refl b)) h1

  pub track_angles-Good :
      (P : ℤ → Type 0) (t : Tracker) (bs cs : List Container)
      → track_angles t bs ≡ some cs
      → Good P bs
      → Good P cs
  unfolding track_angles
  track_angles-Good P t bs cs h g =
      let (d, e, h1) = bind_some (as_double t.max_rotation_speed) _ cs h in
      let (tcs, same) =
        All2-Good bs cs
          (each_blob-All2 KeepsId _
            (λ b c k. Same-KeepsId b c (track_angle-Same _ t.old_blobs b c k)) bs cs h1)
          g.0 in
      (tcs, subst Distinct (sym same) g.1, subst (All P) (sym same) g.2)

  pub copy-IsTracked : (a b : Container) → copy a ≡ some b → IsTracked b
  unfolding copy text_eq
  copy-IsTracked a b h =
      let (words, e, h1) = bind_some (string_at (codes "implements") (clone a)) _ b h in
      let (m, e2, h2) = bind_some (set_at (codes "implements") _ (clone a)) _ b h1 in
      let named = put_at (codes "blob_id") (integer (pos 0)) m in
      let held = put_at_same (codes "blob_id") (pos 0) m in
      let same : put_at (codes "age") (integer (pos 0)) named ≡ b = cc in
      subst IsTracked same
        (IsTracked-intro (pos 0) (pos 0) _
          (put_at_other (codes "age") (codes "blob_id") (integer (pos 0)) named refl ∙ held)
          (put_at_same (codes "age") (pos 0) named)).0

  pub copies-IsTracked :
      (as_ bs : List Container)
      → each_blob copy as_ ≡ some bs
      → All IsTracked bs × (length bs ≡ length as_)
  unfolding each_blob
  copies-IsTracked [] bs h =
      let same : [] ≡ bs = cc in subst (λ l. All IsTracked l × (length l ≡ 0)) same (tt, refl)
  copies-IsTracked (a ∷ as_) bs h =
      let (b, e, h1) = bind_some (copy a) _ bs h in
      let (cs, f, h2) = bind_some (each_blob copy as_) _ bs h1 in
      let (t, n) = copies-IsTracked as_ cs f in
      let same : b ∷ cs ≡ bs = cc in
      subst (λ l. All IsTracked l × (length l ≡ suc (length as_))) same
        ((copy-IsTracked a b e, t), omega (arith, n))
