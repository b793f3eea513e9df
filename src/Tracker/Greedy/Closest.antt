-- ===== src/Tracker/Greedy/Closest.antt =====
-- The blob that src/modules/moGreedyBlobTrackerModule.cpp chooses, and what its writes keep.
use movid.Utils.{bind_some, some_inj}
use movid.Base.{
  ℤ, negsuc, eq_ℤ, ◌≡◌, refl, ◌∙◌, ap, sym, subst, ◌&&◌, Option, none, some, List, [], ◌∷◌, codes,
  text_eq, if-both, All,
}
use movid.Blob.{Container, lists, integer_at, string_at, set_at}
use movid.Float.{Floats}
use movid.Property.{integer}
use movid.Tracker.Fields.{Holds, set_at_same, set_at_other}
use movid.Tracker.Ids.{value, NotIn, blob_id_of, age_of, IsTracked, IsTracked-intro, set_age}
use movid.Tracker.Steps.{KeepsId, Same-KeepsId, set_at-Same, Same-refl}
use movid.Tracker.Greedy.{Seen, is_object, candidate, closer, closest, copy_object, expire}
use movid.Tracker.Sources.{any-NotIn, skipped}

module _ ⦃F : Floats⦄ where
  open F use {Double}

  abbrev pub Chosen : (Container → Type 0) → Option Container → Type 0
  Chosen P none = Unit
  Chosen P (some old) = P old

  candidate-NotIn :
      (reused : List ℤ) (s : Seen) (b old : Container) (d : Double)
      → candidate reused s b old ≡ some (some d)
      → NotIn (blob_id_of old) reused
  unfolding candidate
  candidate-NotIn reused s b old d h =
      let (id, e, h1) = bind_some (integer_at (codes "blob_id") old) _ (some d) h in
      subst (λ z. NotIn z reused) (sym (ap value e)) (any-NotIn id reused (skipped _ _ d h1))

  closer-Chosen :
      (P : Container → Type 0) (old : Container) (found : Option Double)
      (best : Option Container × Double)
      → ((d : Double) → found ≡ some d → P old)
      → Chosen P best.0
      → Chosen P (closer old found best).0
  closer-Chosen P old none best h k = k
  closer-Chosen P old (some d) (blob, m) h k =
      if-both (λ (r : Option Container × Double). Chosen P r.0) (F.lt d m) _ _ (h d refl) k

  -- The closest blob is an old one whose id no new blob has taken.
  pub closest-Chosen :
      (P : Container → Type 0) (reused : List ℤ) (s : Seen) (b : Container) (olds : List Container)
      (best r : Option Container × Double)
      → closest reused s b olds best ≡ some r
      → All P olds
      → Chosen (λ o. P o × NotIn (blob_id_of o) reused) best.0
      → Chosen (λ o. P o × NotIn (blob_id_of o) reused) r.0
  unfolding closest
  closest-Chosen P reused s b [] best r h a k =
      subst (λ (x : Option Container × Double). Chosen (λ o. P o × NotIn (blob_id_of o) reused) x.0)
        (some_inj best r h) k
  closest-Chosen P reused s b (old ∷ olds) best r h a k =
      let (found, e, h1) = bind_some (candidate reused s b old) _ r h in
      closest-Chosen P reused s b olds (closer old found best) r h1 a.1 (
        closer-Chosen (λ o. P o × NotIn (blob_id_of o) reused) old found best
          (λ d f. (a.0, candidate-NotIn reused s b old d (e ∙ ap some f))) k)

  -- A write to `blob_id`.
  pub set_id :
      (z : ℤ) (b c : Container)
      → IsTracked b
      → set_at (codes "blob_id") (integer z) b ≡ some c
      → IsTracked c × (blob_id_of c ≡ z)
  set_id z b c h e =
      let (d, f, k) = set_at_same (codes "blob_id") (blob_id_of b) z b h.0 in
      let same : d ≡ c = some_inj d c (sym f ∙ e) in
      let age =
        set_at_other (codes "blob_id") (codes "age") (integer z) b c (unfold text_eq in refl) e
        ∙ h.1 in
      let (t, i, _) =
        IsTracked-intro z (age_of b) c (subst (λ x. Holds (codes "blob_id") z x) same k) age in
      (t, i)

  pub copy_object-KeepsId :
      (s : Seen) (old b c : Container) → copy_object s old b ≡ some c → KeepsId b c
  unfolding copy_object
  copy_object-KeepsId s old b c h =
      let (words, e, h1) = bind_some (string_at (codes "implements") old) _ c h in
      if-both (λ o. o ≡ some c → KeepsId b c)
        (is_object words && (s.new_is_fid && s.new_is_volatile)) _ _
        (λ k.
          let (fid, f, k1) = bind_some (integer_at (codes "fiducial_id") old) _ c k in
          Same-KeepsId b c (
            set_at-Same (codes "fiducial_id") _ b b c (unfold text_eq in refl)
              (unfold text_eq in refl) k1 (Same-refl b)))
        (λ k. subst (KeepsId b) (some_inj b c k) (λ t. (t, refl))) h1

  pub expire-KeepsId : (max_age : ℤ) (b c : Container) → expire max_age b ≡ some c → KeepsId b c
  unfolding expire
  expire-KeepsId max_age b c h t =
      let (words, e, h1) = bind_some (string_at (codes "implements") b) _ c h in
      let same : some b ≡ some c → IsTracked c × (blob_id_of c ≡ blob_id_of b) =
        λ k. subst (λ x. IsTracked x × (blob_id_of x ≡ blob_id_of b)) (some_inj b c k) (t, refl) in
      if-both (λ o. o ≡ some c → IsTracked c × (blob_id_of c ≡ blob_id_of b))
        (lists (codes "volatile") words) _ _
        (λ k.
          let (fid, f, k1) = bind_some (integer_at (codes "fiducial_id") b) _ c k in
          if-both (λ o. o ≡ some c → IsTracked c × (blob_id_of c ≡ blob_id_of b))
            (eq_ℤ fid (negsuc 0)) _ _ (λ l. let (u, i, _) = set_age _ b c t l in (u, i)) same k1)
        same h1
