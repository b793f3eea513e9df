-- ===== src/Tracker/Ids.antt =====
-- The ids of blobs in src/modules/moAbstractBlobTrackerModule.cpp: what the update asks of
-- `trackBlobs`, and the loops of the update that carry the ids along.
use movid.Base.{
  ℕ, ◌≤◌, ◌<◌, ℤ, pos, negsuc, eq_ℤ, eq_ℤ_iff, ◌≡◌, refl, ◌∙◌, ap, ◌≢◌, ◌⊎◌, inl, inr, sym, subst,
  Bool, true, false, Option, none, some, List, [], ◌∷◌, codes, text_eq, map, if◌then◌else◌, All,
  if-both,
}
use movid.Base.Dict.{text_key}
use movid.Blob.{Container, integer_at, set_at}
use movid.Float.{Floats}
use movid.Property.{integer}
use movid.Tracker.{in_range, met_age, meet, retain}
use movid.Tracker.Fields.{Holds, Holds-integer_at, set_at_other, set_at_same}
use movid.Utils.{◌>>=◌, bind_some}

abbrev pub value : Option ℤ → ℤ
value none = pos 0
value (some z) = z

abbrev pub NotIn : ℤ → List ℤ → Type 0
NotIn z zs = All (λ y. y ≢ z) zs

abbrev pub Distinct : List ℤ → Type 0
Distinct [] = Unit
Distinct (z ∷ zs) = NotIn z zs × Distinct zs

-- An id that the counter gave while it went from `lo` to `hi`.
abbrev pub IsBetween : ℕ → ℕ → ℤ → Type 0
IsBetween lo hi (pos k) = (lo < k) × (k ≤ hi)
IsBetween lo hi (negsuc k) = ⊥

module _ ⦃F : Floats⦄ where
  abbrev pub blob_id_of : Container → ℤ
  blob_id_of b = value (integer_at (codes "blob_id") b)

  abbrev pub age_of : Container → ℤ
  age_of b = value (integer_at (codes "age") b)

  -- The two properties that `update` makes are there, and are integers.
  abbrev pub IsTracked : Container → Type 0
  IsTracked b = Holds (codes "blob_id") (blob_id_of b) b × Holds (codes "age") (age_of b) b

  abbrev pub ids : List Container → List ℤ
  ids bs = map blob_id_of bs

  pub id_of_held : (z : ℤ) (b : Container) → Holds (codes "blob_id") z b → blob_id_of b ≡ z
  id_of_held z b h = ap value (Holds-integer_at (codes "blob_id") z b h)

  pub age_of_held : (z : ℤ) (b : Container) → Holds (codes "age") z b → age_of b ≡ z
  age_of_held z b h = ap value (Holds-integer_at (codes "age") z b h)

  pub IsTracked-intro :
      (z a : ℤ) (b : Container)
      → Holds (codes "blob_id") z b
      → Holds (codes "age") a b
      → IsTracked b × (blob_id_of b ≡ z) × (age_of b ≡ a)
  IsTracked-intro z a b h k =
      let e = id_of_held z b h in let f = age_of_held a b k in ((rw e h, rw f k), e, f)

  -- A write to `age` keeps the id.
  pub set_age :
      (z : ℤ) (b c : Container)
      → IsTracked b
      → set_at (codes "age") (integer z) b ≡ some c
      → IsTracked c × (blob_id_of c ≡ blob_id_of b) × (age_of c ≡ z)
  set_age z b c h e =
      let (d, f, k) = set_at_same (codes "age") (age_of b) z b h.1 in
      let same : d ≡ c = cc in
      let k2 : Holds (codes "age") z c = subst (λ x. Holds (codes "age") z x) same k in
      let n =
        set_at_other (codes "age") (codes "blob_id") (integer z) b c (unfold text_eq in refl) e
        ∙ h.0 in
      IsTracked-intro (blob_id_of b) z c n k2

  -- The two ways in which a blob of the new list meets an old one.
  abbrev pub Met :
      ℤ
      → Option (List Container)
      → Option Container
      → Container
      → List Container
      → List Container
      → Type 0
  Met id rest aged b bs cs =
      ((c : Container) × (id ≡ blob_id_of b) × (aged ≡ some c) × (cs ≡ c ∷ bs))
      ⊎ ((ds : List Container) × (id ≢ blob_id_of b) × (rest ≡ some ds) × (cs ≡ b ∷ ds))

  meet_branch :
      (t : Bool) (id found : ℤ) (aged : Option Container) (rest : Option (List Container))
      (b : Container) (bs cs : List Container)
      → eq_ℤ id found ≡ t
      → found ≡ blob_id_of b
      → (if t then (do c ← aged; some (c ∷ bs)) else (do ds ← rest; some (b ∷ ds))) ≡ some cs
      → Met id rest aged b bs cs
  meet_branch true id found aged rest b bs cs e f h =
      let (c, g, k) = bind_some aged _ cs h in inl (c, (eq_ℤ_iff id found).0 e ∙ f, g, cc)
  meet_branch false id found aged rest b bs cs e f h =
      let (ds, g, k) = bind_some rest _ cs h in
      inr (ds, (λ same. cc ((eq_ℤ_iff id found).1 (same ∙ sym f))), g, cc)

  pub meet_cases :
      (lo hi id age : ℤ) (old b : Container) (bs cs : List Container)
      → meet lo hi id age old (b ∷ bs) ≡ some cs
      → Met id
          (meet lo hi id age old bs)
          (set_at (codes "age") (integer (met_age lo hi age)) b)
          b
          bs
          cs
  unfolding meet
  meet_cases lo hi id age old b bs cs h =
      let (found, e, h1) = bind_some (integer_at (codes "blob_id") b) _ cs h in
      meet_branch (eq_ℤ id found) id found _ _ b bs cs refl (sym (ap value e)) h1

  pub meet_none :
      (Q : List Container → Type 0) (lo hi id age : ℤ) (old : Container) (cs : List Container)
      → meet lo hi id age old [] ≡ some cs
      → Q (old ∷ [])
      → Q []
      → Q cs
  unfolding meet
  meet_none Q lo hi id age old cs h one none_kept =
      let same : (if in_range lo hi age then old ∷ [] else []) ≡ cs = cc in
      subst Q same (if-both Q (in_range lo hi age) (old ∷ []) [] one none_kept)

  pub meet-NotIn :
      (lo hi age z : ℤ) (old : Container) (bs cs : List Container)
      → meet lo hi (blob_id_of old) age old bs ≡ some cs
      → All IsTracked bs
      → blob_id_of old ≢ z
      → NotIn z (ids bs)
      → NotIn z (ids cs)
  meet-NotIn lo hi age z old [] cs h t n k =
      meet_none (λ l. NotIn z (ids l)) lo hi (blob_id_of old) age old cs h (n, tt) tt
  meet-NotIn lo hi age z old (b ∷ bs) cs h t n k =
      elim (meet_cases lo hi (blob_id_of old) age old b bs cs h) [
        | inl (c, same, aged, e) ↦ let (_, i, _) = set_age _ b c t.0 aged in rw (e, i) k
        | inr (ds, other, rest, e) ↦ rw e (k.0, meet-NotIn lo hi age z old bs ds rest t.1 n k.1)
      ]

  -- What the loop of the update keeps.
  abbrev pub Good : (ℤ → Type 0) → List Container → Type 0
  Good P bs = All IsTracked bs × Distinct (ids bs) × All P (ids bs)

  pub meet-Good :
      (P : ℤ → Type 0) (lo hi age : ℤ) (old : Container) (bs cs : List Container)
      → meet lo hi (blob_id_of old) age old bs ≡ some cs
      → IsTracked old
      → P (blob_id_of old)
      → Good P bs
      → Good P cs
  meet-Good P lo hi age old [] cs h t p g =
      meet_none (Good P) lo hi (blob_id_of old) age old cs h ((t, tt), (tt, tt), (p, tt))
        (tt, tt, tt)
  meet-Good P lo hi age old (b ∷ bs) cs h t p (tb, d, q) =
      elim (meet_cases lo hi (blob_id_of old) age old b bs cs h) [
        | inl (c, same, aged, e) ↦
            let (tc, i, _) = set_age _ b c tb.0 aged in
            subst (Good P) (sym e) ((tc, tb.1), (rw i d.0, d.1), (rw i q.0, q.1))
        | inr (ds, other, rest, e) ↦
            let (t2, d2, q2) = meet-Good P lo hi age old bs ds rest t p (tb.1, d.1, q.1) in
            rw e (
              (tb.0, t2),
              (meet-NotIn lo hi age (blob_id_of b) old bs ds rest tb.1 other d.0, d2),
              (q.0, q2),
            )
      ]

  -- The old blobs are kept in turn, under ids that are all different.
  pub retain-Good :
      (P : ℤ → Type 0) (lo hi : ℤ) (olds bs cs : List Container)
      → retain lo hi olds bs ≡ some cs
      → All IsTracked olds
      → All P (ids olds)
      → Good P bs
      → Good P cs
  unfolding retain
  retain-Good P lo hi [] bs cs h t p g = subst (Good P) (cc) g
  retain-Good P lo hi (old ∷ olds) bs cs h t p g =
      let (id, e, h1) = bind_some (integer_at (codes "blob_id") old) _ cs h in
      let (age, f, h2) = bind_some (integer_at (codes "age") old) _ cs h1 in
      let (met, k, h3) = bind_some (meet lo hi id age old bs) _ cs h2 in
      let same : id ≡ blob_id_of old = sym (ap value e) in
      let k2 : meet lo hi (blob_id_of old) age old bs ≡ some met =
        ap (λ x. meet lo hi x age old bs) (sym same) ∙ k in
      retain-Good P lo hi olds met cs h3 t.1 p.1 (meet-Good P lo hi age old bs met k2 t.0 p.0 g)
