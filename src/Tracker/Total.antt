-- ===== src/Tracker/Total.antt =====
-- Blobs that are neither objects nor volatile, as src/modules/moBlobFinderModule.cpp and
-- src/modules/moFingerTipFinderModule.cpp send them: the steps of the tracker do not fail on them.
use movid.Base.{
  ℤ, pos, Text, eq_ℤ, to_int32, ◌+ℤ◌, ◌≡◌, refl, ◌∙◌, ap, inl, inr, false, Option, some, List, [],
  ◌∷◌, ◌++◌, codes, text_eq, All, Bool-cases, if-both, text_eq_iff,
}
use movid.Base.Dict.{find, modify, text_key, find-modify}
use mathlib.Core.Option
use movid.Blob.{Container, clone, lists, string_at, double_at, set_at, put_at}
use movid.Float.{Floats}
use movid.Property.{
  string, integer, Property, new_property, set, autoconvert, convert_to_string, convert_to_double,
  as_string,
}
use movid.Tracker.{in_range, met_age, each_blob, track_angle, grow_older, copy, meet, retain}
use movid.Tracker.Fields.{
  Holds, Holds-integer_at, set_at_same, set_at_other, put_at_other, put_at_same,
}
use movid.Tracker.Ids.{blob_id_of, age_of, IsTracked, IsTracked-intro}
use movid.Tracker.Greedy.{is_object}
use movid.Utils.{◌>>=◌}

-- What the blob implements: none of the words that the trackers look for.
pub record IsPlainText (words : Text) : Type 0 where
  pub no_object : is_object words ≡ false
  pub no_volatile : lists (codes "volatile") words ≡ false
  pub no_turn : lists (codes "volatileangle") words ≡ false

module _ ⦃F : Floats⦄ where
  open F use {Double}

  pub record IsPlain (b : Container) : Type 0 where
    pub words : Text
    pub x : Double
    pub y : Double
    pub says : string_at (codes "implements") b ≡ some words
    pub has_x : double_at (codes "x") b ≡ some x
    pub has_y : double_at (codes "y") b ≡ some y
    pub plain : IsPlainText words

  -- A blob as a finder sends it.
  pub record IsFound (b : Container) : Type 0 where
    pub words : Property
    pub x : Property
    pub y : Property
    pub says : find (codes "implements") b ≡ some words
    pub has_x : find (codes "x") b ≡ some x
    pub has_y : find (codes "y") b ≡ some y
    pub plain : IsPlainText (as_string words ++ codes ",tracked")

  abbrev pub IsReady : Container → Type 0
  IsReady b = IsTracked b × IsPlain b

  -- The three properties that are read stay.
  abbrev SameFace : Container → Container → Type 0
  SameFace b c =
      (find (codes "implements") c ≡ find (codes "implements") b)
      × (find (codes "x") c ≡ find (codes "x") b)
      × (find (codes "y") c ≡ find (codes "y") b)

  IsPlain-SameFace : (b c : Container) → SameFace b c → IsPlain b → IsPlain c
  unfolding string_at double_at
  IsPlain-SameFace b c s p = record {
    words = p.words;
    x = p.x;
    y = p.y;
    says = rw (s.0) p.says;
    has_x = rw (s.1) p.has_x;
    has_y = rw (s.2) p.has_y;
    plain = p.plain;
  }

  -- A write of an integer to a property of the tracker.
  set_total :
      (n : Text) (z y : ℤ) (b : Container)
      → text_eq n (codes "implements") ≡ false
      → text_eq n (codes "x") ≡ false
      → text_eq n (codes "y") ≡ false
      → Holds n z b
      → (c : Container) × (set_at n (integer y) b ≡ some c) × Holds n y c × SameFace b c
  set_total n z y b i j k h =
      let (c, e, held) = set_at_same n z y b h in
      (
        c,
        e,
        held,
        (
          set_at_other n (codes "implements") (integer y) b c i e,
          set_at_other n (codes "x") (integer y) b c j e,
          set_at_other n (codes "y") (integer y) b c k e,
        ),
      )

  pub set_age_total :
      (z : ℤ) (b : Container)
      → IsReady b
      → (c : Container) × (set_at (codes "age") (integer z) b ≡ some c) × IsReady c
  unfolding text_eq
  set_age_total z b (t, p) =
      let (c, e, h, s) = set_total (codes "age") (age_of b) z b refl refl refl t.1 in
      let n = set_at_other (codes "age") (codes "blob_id") (integer z) b c refl e ∙ t.0 in
      (c, e, ((IsTracked-intro (blob_id_of b) z c n h).0, IsPlain-SameFace b c s p))

  pub set_id_total :
      (z : ℤ) (b : Container)
      → IsReady b
      → (c : Container) × (set_at (codes "blob_id") (integer z) b ≡ some c) × IsReady c
  unfolding text_eq
  set_id_total z b (t, p) =
      let (c, e, h, s) = set_total (codes "blob_id") (blob_id_of b) z b refl refl refl t.0 in
      let n = set_at_other (codes "blob_id") (codes "age") (integer z) b c refl e ∙ t.1 in
      (c, e, ((IsTracked-intro z (age_of b) c h n).0, IsPlain-SameFace b c s p))

  pub each_total :
      (P Q : Container → Type 0) (f : Container → Option Container)
      → ((b : Container) → P b → (c : Container) × (f b ≡ some c) × Q c)
      → (bs : List Container) → All P bs
      → (cs : List Container) × (each_blob f bs ≡ some cs) × All Q cs
  unfolding each_blob
  each_total P Q f k [] h = ([], refl, tt)
  each_total P Q f k (b ∷ bs) h =
      let (c, e, q) = k b h.0 in
      let (cs, es, qs) = each_total P Q f k bs h.1 in (c ∷ cs, rw (e, es) refl, (q, qs))

  pub grow_older-IsReady :
      (b : Container) → IsReady b → (c : Container) × (grow_older b ≡ some c) × IsReady c
  unfolding grow_older
  grow_older-IsReady b r =
      let e = Holds-integer_at (codes "age") (age_of b) b r.0.1 in
      let (c, h, k) = set_age_total (to_int32 (age_of b +ℤ pos 1)) b r in
      (c, ap (λ o. o >>= (λ a. set_at (codes "age") (integer (to_int32 (a +ℤ pos 1))) b)) e ∙ h, k)

  pub track_angle_total :
      (d : ℤ) (olds : List Container) (b : Container)
      → IsReady b
      → (c : Container) × (track_angle d olds b ≡ some c) × IsReady c
  unfolding track_angle
  track_angle_total d olds b r = (b, rw (r.1.says, r.1.plain.no_turn) refl, r)

  find-clone :
      (n : Text) (b : Container)
      → find n (clone b)
        ≡ Option.map (λ (p : Property). new_property (string (as_string p)) []) (find n b)
  unfolding find clone
  find-clone n [] = refl
  find-clone n ((m, p) ∷ b) = elim (Bool-cases (text_eq m n)) [
    | inl e ↦ rw e refl
    | inr e ↦ rw e (find-clone n b)
  ]

  set_string_total :
      (n : Text) (w v : Text) (b : Container)
      → find n b ≡ some (new_property (string w) [])
      → (c : Container) × (set_at n (string v) b ≡ some c)
        × (find n c ≡ some (new_property (string v) []))
  unfolding set_at set autoconvert new_property convert_to_string
  set_string_total n w v b h = (
    modify n (λ _. new_property (string v) []) b,
    rw (h) refl,
    find-modify n n (λ _. new_property (string v) []) b ∙ rw ((text_eq_iff n n).1 refl, h) refl,
  )

  cloned :
      (n : Text) (b : Container) (p : Property)
      → find n b ≡ some p
      → find n (clone b) ≡ some (new_property (string (as_string p)) [])
  cloned n b p h = find-clone n b ∙ rw h refl

  -- The two properties that the tracker adds leave a third alone.
  added :
      (n : Text) (b : Container)
      → text_eq (codes "age") n ≡ false
      → text_eq (codes "blob_id") n ≡ false
      → find n
          (put_at (codes "age") (integer (pos 0)) (put_at (codes "blob_id") (integer (pos 0)) b))
        ≡ find n b
  added n b h k = put_at_other (codes "age") n _ _ h ∙ put_at_other (codes "blob_id") n _ b k

  pub copy_total : (a : Container) → IsFound a → (b : Container) × (copy a ≡ some b) × IsReady b
  unfolding copy string_at double_at text_eq convert_to_string convert_to_double new_property
  copy_total a f =
      let says = cloned (codes "implements") a f.words f.says in
      let text = as_string f.words ++ codes ",tracked" in
      let (m, e, k) =
        set_string_total (codes "implements") (as_string f.words) text (clone a) says in
      let x =
        set_at_other (codes "implements") (codes "x") (string text) (clone a) m refl e
        ∙ cloned (codes "x") a f.x f.has_x in
      let y =
        set_at_other (codes "implements") (codes "y") (string text) (clone a) m refl e
        ∙ cloned (codes "y") a f.y f.has_y in
      let named = put_at (codes "blob_id") (integer (pos 0)) m in
      let held = put_at_same (codes "blob_id") (pos 0) m in
      (
        put_at (codes "age") (integer (pos 0)) named,
        rw (says, e) refl,
        (
          (IsTracked-intro (pos 0) (pos 0) _
              (put_at_other (codes "age") (codes "blob_id") (integer (pos 0)) named refl ∙ held)
              (put_at_same (codes "age") (pos 0) named)).0,
          record {
            words = text;
            x = F.atof (as_string f.x);
            y = F.atof (as_string f.y);
            says = rw (added (codes "implements") m refl refl, k) refl;
            has_x = rw (added (codes "x") m refl refl, x) refl;
            has_y = rw (added (codes "y") m refl refl, y) refl;
            plain = f.plain;
          },
        ),
      )

  meet-IsReady :
      (lo hi : ℤ) (old : Container) (bs : List Container)
      → IsReady old
      → All IsReady bs
      → (cs : List Container) × (meet lo hi (blob_id_of old) (age_of old) old bs ≡ some cs)
        × All IsReady cs
  unfolding meet
  meet-IsReady lo hi old [] r a =
      (_, refl, if-both (All IsReady) (in_range lo hi (age_of old)) _ _ (r, tt) tt)
  meet-IsReady lo hi old (b ∷ bs) r a =
      let e = Holds-integer_at (codes "blob_id") (blob_id_of b) b a.0.0.0 in
      let (c, f, rc) = set_age_total (met_age lo hi (age_of old)) b a.0 in
      let (cs, g, rcs) = meet-IsReady lo hi old bs r a.1 in
      elim (Bool-cases (eq_ℤ (blob_id_of old) (blob_id_of b))) [
        | inl t ↦ (c ∷ bs, rw (e, t, f) refl, (rc, a.1))
        | inr t ↦ (b ∷ cs, rw (e, t, g) refl, (a.0, rcs))
      ]

  pub retain-IsReady :
      (lo hi : ℤ) (olds bs : List Container)
      → All IsReady olds
      → All IsReady bs
      → (cs : List Container) × (retain lo hi olds bs ≡ some cs) × All IsReady cs
  unfolding retain
  retain-IsReady lo hi [] bs r a = (bs, refl, a)
  retain-IsReady lo hi (old ∷ olds) bs r a =
      let e = Holds-integer_at (codes "blob_id") (blob_id_of old) old r.0.0.0 in
      let f = Holds-integer_at (codes "age") (age_of old) old r.0.0.1 in
      let (met, g, rm) = meet-IsReady lo hi old bs r.0 a in
      let (cs, h, rcs) = retain-IsReady lo hi olds met r.1 rm in (cs, rw (e, f, g) h, rcs)
