-- ===== src/Tracker/Crash.antt =====
-- `trackAngles` of src/modules/moAbstractBlobTrackerModule.cpp, on one blob: when it dereferences NULL.
use movid.Base.{
  ℤ, Text, ◌≡◌, ◌≢◌, ◌⊎◌, refl, ◌∙◌, sym, inl, inr, true, Option, none, some, List, codes,
  Bool-cases, Option-cases, text_eq,
}
use mathlib.Core.Logic.{◌↔◌}
use movid.Base.Dict.{find, text_key}
use movid.Blob.{Container, lists, integer_at, string_at, double_at, set_at, put_at}
use movid.Float.{Floats}
use movid.Property.{Value, bool, string, integer, double, pointlist, set}
use movid.Property.Setting.{IsPointsIntoDouble, set-eq-none_iff}
use movid.Tracker.{rad_to_deg, find_blob, turn, turn_blob, track_angle}
use movid.Tracker.Fields.{put_at_other}

module _ ⦃F : Floats⦄ where
  -- The old blob of the same id, if there is one, was never turned.
  abbrev pub LacksTurns : Option Container → Type 0
  LacksTurns none = ⊥
  LacksTurns (some old) =
      (find (codes "fallen_over") old ≡ none) ⊎ (find (codes "last_angle") old ≡ none)

  no_points : (v : Value) (d : F.Double) → IsPointsIntoDouble v (double d) → ⊥
  no_points (bool b) d h = h
  no_points (string b) d h = h
  no_points (integer b) d h = h
  no_points (double b) d h = h
  no_points (pointlist b) d h = h

  has_angle :
      (b : Container) (angle : F.Double)
      → double_at (codes "angle") b ≡ some angle
      → find (codes "angle") b ≢ none
  unfolding double_at
  has_angle b angle h e = cc

  -- A number can be written to a property that is there.
  set_there :
      (n : Text) (d : F.Double) (b : Container) → find n b ≢ none → set_at n (double d) b ≢ none
  unfolding set_at
  set_there n d b there e = elim (Option-cases (find n b)) [
    | inl f ↦ there f
    | inr (p, f) ↦ elim (Option-cases (set (double d) p)) [
      | inl g ↦ no_points p.val d (((set-eq-none_iff (double d) p).0 g).1)
      | inr (q, g) ↦ cc
    ]
  ]

  -- The two properties that are put do not hide the angle.
  keeps_angle :
      (turns angle : Value) (b : Container)
      → find
          (codes "angle")
          (put_at (codes "last_angle") angle (put_at (codes "fallen_over") turns b))
        ≡ find (codes "angle") b
  unfolding text_eq
  keeps_angle turns angle b =
      put_at_other (codes "last_angle") (codes "angle") angle (put_at (codes "fallen_over") turns b)
        refl
      ∙ put_at_other (codes "fallen_over") (codes "angle") turns b refl

  turn-none_iff :
      (max_diff angle : ℤ) (b : Container) (o : Option Container)
      → find (codes "angle") b ≢ none
      → (turn max_diff angle b o ≡ none) ↔ LacksTurns o
  unfolding turn integer_at
  turn-none_iff max_diff angle b none there = ((λ e. cc), (λ h. absurd h))
  turn-none_iff max_diff angle b (some old) there =
      elim (Option-cases (find (codes "fallen_over") old)) [
        | inl f ↦ ((λ e. inl f), (λ h. rw f refl))
        | inr (p, f) ↦ elim (Option-cases (find (codes "last_angle") old)) [
          | inl g ↦ ((λ e. inr g), (λ h. rw (f, g) refl))
          | inr (q, g) ↦ (
            (λ e. absurd (
                set_there (codes "angle") _ _ (λ x. there (sym (keeps_angle _ _ b) ∙ x))
                  (rw (f, g) at e))),
            (λ h. elim h [ inl x ↦ cc | inr x ↦ cc ]),
          )
        ]
      ]

  -- Of a blob that has a text `implements`, an angle and an id, `trackAngles` dereferences NULL
  -- exactly when the blob implements `volatileangle` and the first old blob of its id lacks
  -- `fallen_over` or `last_angle`, the two properties that turning a blob creates.
  pub track_angle-none_iff :
      (max_diff id : ℤ) (olds : List Container) (b : Container) (words : Text) (angle : F.Double)
      (o : Option Container)
      → string_at (codes "implements") b ≡ some words
      → double_at (codes "angle") b ≡ some angle
      → integer_at (codes "blob_id") b ≡ some id
      → find_blob id olds ≡ some o
      → (track_angle max_diff olds b ≡ none)
        ↔ ((lists (codes "volatileangle") words ≡ true) × LacksTurns o)
  unfolding track_angle turn_blob
  track_angle-none_iff max_diff id olds b words angle o e1 e2 e3 e4 =
      elim (Bool-cases (lists (codes "volatileangle") words)) [
        | inl v ↦
            let same : track_angle max_diff olds b
                ≡ turn max_diff (F.to_int (rad_to_deg angle)) b o =
              rw (e1, v, e2, e3, e4) refl in
            let (l, r) =
              turn-none_iff max_diff (F.to_int (rad_to_deg angle)) b o (has_angle b angle e2) in
            ((λ h. (v, l (sym same ∙ h))), (λ h. same ∙ r h.1))
        | inr v ↦
            let same : track_angle max_diff olds b ≡ some b = rw (e1, v) refl in
            ((λ h. cc), (λ h. cc))
      ]
