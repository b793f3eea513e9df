-- ===== src/Tracker/Greedy/Nearest.antt =====
-- Which old blob src/modules/moGreedyBlobTrackerModule.cpp chooses for a new one: the nearest.
use movid.Utils.{bind_some, some_inj}
use movid.Base.{
  ℕ, zero, suc, ℤ, ◌≡◌, refl, ◌∙◌, ap, ◌⊎◌, inl, inr, sym, subst, true, false, Option, none, some,
  List, [], ◌∷◌, get_elem?, Bool-cases,
}
use movid.Blob.{Container}
use movid.Float.{Floats}
use movid.Tracker.Greedy.{Seen, candidate, closer, closest}

module _ ⦃F : Floats⦄ where
  open F use {Double}

  -- What the comparison of floating-point numbers keeps, NaN included.
  pub record IsOrder : Type 0 where
    pub irreflexive : (a : Double) → F.lt a a ≡ false
    pub transitive : (a b c : Double) → F.lt a b ≡ true → F.lt b c ≡ true → F.lt a c ≡ true

  Below : Double → Double → Type 0
  Below a b = (a ≡ b) ⊎ (F.lt a b ≡ true)

  not-Below : (o : IsOrder) (d x y : Double) → F.lt d x ≡ false → Below y x → F.lt d y ≡ false
  unfolding Below
  not-Below o d x y h (inl e) = ap (F.lt d) e ∙ h
  not-Below o d x y h (inr l) = elim (Bool-cases (F.lt d y)) [
    | inl k ↦ cc (o.transitive d y x k l)
    | inr k ↦ k
  ]

  Below-trans : (o : IsOrder) (a b c : Double) → Below a b → Below b c → Below a c
  unfolding Below
  Below-trans o a b c (inl e) k = subst (λ x. Below x c) (sym e) k
  Below-trans o a b c (inr l) (inl e) = inr (ap (F.lt a) (sym e) ∙ l)
  Below-trans o a b c (inr l) (inr k) = inr (o.transitive a b c l k)

  pick :
      (o : IsOrder) (d m : Double) (old : Container) (blob : Option Container)
      → Below (closer old (some d) (blob, m)).1 m
        × (F.lt d (closer old (some d) (blob, m)).1 ≡ false)
  unfolding Below
  pick o d m old blob = elim (Bool-cases (F.lt d m)) [
    | inl e ↦ rw e (inr e, o.irreflexive d)
    | inr e ↦ rw e (inl refl, e)
  ]

  closer-Below :
      (o : IsOrder) (old : Container) (found : Option Double) (best : Option Container × Double)
      → Below (closer old found best).1 best.1
  unfolding Below
  closer-Below o old none best = inl refl
  closer-Below o old (some d) (blob, m) = (pick o d m old blob).0

  closest-Below :
      (o : IsOrder) (reused : List ℤ) (s : Seen) (b : Container) (olds : List Container)
      (best r : Option Container × Double)
      → closest reused s b olds best ≡ some r
      → Below r.1 best.1
  unfolding closest Below
  closest-Below o reused s b [] best r h =
      inl (ap (λ (x : Option Container × Double). x.1) (sym (some_inj best r h)))
  closest-Below o reused s b (old ∷ olds) best r h =
      let (found, e, h1) = bind_some (candidate reused s b old) _ r h in
      Below-trans o r.1 (closer old found best).1 best.1
        (closest-Below o reused s b olds (closer old found best) r h1)
        (closer-Below o old found best)

  -- The distance is that of the chosen blob, or still the limit.
  abbrev pub IsAttained : List ℤ → Seen → Container → Double → Option Container × Double → Type 0
  IsAttained reused s b limit (none, m) = m ≡ limit
  IsAttained reused s b limit (some old, m) =
      (candidate reused s b old ≡ some (some m)) × (F.lt m limit ≡ true)

  attained_lt :
      (o : IsOrder) (reused : List ℤ) (s : Seen) (b : Container) (limit m d : Double)
      (blob : Option Container)
      → IsAttained reused s b limit (blob, m)
      → F.lt d m ≡ true
      → F.lt d limit ≡ true
  attained_lt o reused s b limit m d none a h = ap (F.lt d) (sym a) ∙ h
  attained_lt o reused s b limit m d (some old) a h = o.transitive d m limit h a.1

  closer-IsAttained :
      (o : IsOrder) (reused : List ℤ) (s : Seen) (b old : Container) (limit : Double)
      (found : Option Double) (best : Option Container × Double)
      → candidate reused s b old ≡ some found
      → IsAttained reused s b limit best
      → IsAttained reused s b limit (closer old found best)
  closer-IsAttained o reused s b old limit none best c a = a
  closer-IsAttained o reused s b old limit (some d) (blob, m) c a = elim (Bool-cases (F.lt d m)) [
    | inl e ↦ rw e (c, attained_lt o reused s b limit m d blob a e)
    | inr e ↦ rw e a
  ]

  closest-IsAttained :
      (o : IsOrder) (reused : List ℤ) (s : Seen) (b : Container) (limit : Double)
      (olds : List Container) (best r : Option Container × Double)
      → closest reused s b olds best ≡ some r
      → IsAttained reused s b limit best
      → IsAttained reused s b limit r
  unfolding closest
  closest-IsAttained o reused s b limit [] best r h a =
      subst (IsAttained reused s b limit) (some_inj best r h) a
  closest-IsAttained o reused s b limit (old ∷ olds) best r h a =
      let (found, e, h1) = bind_some (candidate reused s b old) _ r h in
      closest-IsAttained o reused s b limit olds (closer old found best) r h1
        (closer-IsAttained o reused s b old limit found best e a)

  closest_least :
      (o : IsOrder) (reused : List ℤ) (s : Seen) (b old : Container) (d : Double) (i : ℕ)
      (olds : List Container) (best r : Option Container × Double)
      → closest reused s b olds best ≡ some r
      → get_elem? olds i ≡ some old
      → candidate reused s b old ≡ some (some d)
      → F.lt d r.1 ≡ false
  unfolding closest
  closest_least o reused s b old d i [] best r h g c = cc
  closest_least o reused s b old d zero (x ∷ olds) best r h g c =
      let (found, e, h1) = bind_some (candidate reused s b x) _ r h in
      let same : x ≡ old = some_inj x old g in
      let is_d : found ≡ some d =
        some_inj found (some d) (sym e ∙ ap (candidate reused s b) same ∙ c) in
      not-Below o d (closer x found best).1 r.1
        (subst (λ f. F.lt d (closer x f best).1 ≡ false) (sym is_d) (pick o d best.1 x best.0).1)
        (closest-Below o reused s b olds (closer x found best) r h1)
  closest_least o reused s b old d (suc i) (x ∷ olds) best r h g c =
      let (found, e, h1) = bind_some (candidate reused s b x) _ r h in
      closest_least o reused s b old d i olds (closer x found best) r h1 g c

  -- The old blob that the search of the greedy tracker chooses is a candidate closer than
  -- `max_distance`, or there is no choice and the distance is `max_distance`; and no candidate among
  -- the old blobs is closer than the distance found. A candidate is an old blob whose id is not
  -- taken and that the rules on objects admit. This is for a comparison that is irreflexive and
  -- transitive.
  pub closest_nearest :
      (o : IsOrder) (reused : List ℤ) (s : Seen) (b old : Container) (max_distance d : Double)
      (i : ℕ) (olds : List Container) (r : Option Container × Double)
      → closest reused s b olds (none, max_distance) ≡ some r
      → get_elem? olds i ≡ some old
      → candidate reused s b old ≡ some (some d)
      → (F.lt d r.1 ≡ false) × IsAttained reused s b max_distance r
  closest_nearest o reused s b old max_distance d i olds r h g c = (
    closest_least o reused s b old d i olds (none, max_distance) r h g c,
    closest-IsAttained o reused s b max_distance olds (none, max_distance) r h refl,
  )
