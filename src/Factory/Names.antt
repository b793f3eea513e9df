-- ===== src/Factory/Names.antt =====
-- The names under which `create` of src/moFactory.cpp knows a class.
use movid.Base.{
  ℕ, ◌-◌, ◌<◌, ◌≡◌, ◌≢◌, refl, ap, sym, ◌∙◌, Text, true, Option, none, some, [], ◌∷◌, ◌++◌, codes,
  length, take, drop, ltb, lt→ltb, ◌&&◌, if◌then◌else◌, text_eq, text_eq_refl, arith, length-append,
}
use movid.Base.Dict.{find, text_key}
use movid.Float.{Floats}
use movid.World.{World}
use movid.Factory.{short_name, construct, create}

take_append : (xs ys : Text) → take (length xs) (xs ++ ys) ≡ xs
take_append [] ys = refl
take_append (x ∷ xs) ys = ap (λ r. x ∷ r) (take_append xs ys)

drop_append : (xs ys : Text) → drop (length xs) (xs ++ ys) ≡ ys
drop_append [] ys = refl
drop_append (x ∷ xs) ys = drop_append xs ys

-- The name of the class in the source.
abbrev pub full_name : Text → Text
full_name name = codes "mo" ++ (name ++ codes "Module")

positive : (name : Text) → name ≢ [] → 0 < length name
positive [] h = absurd (h refl)
positive (c ∷ name) h = omega arith

-- The end of the cut.
cut_module :
    (name : Text)
    → 0 < length name
    → (let cut = name ++ codes "Module" in
        if ltb 6 (length cut) && text_eq (drop (length cut - 6) cut) (codes "Module")
        then take (length cut - 6) cut
        else cut)
      ≡ name
cut_module name h =
    let less : length (name ++ codes "Module") - 6 ≡ length name =
      omega (arith, length-append name (codes "Module")) in
    let long : ltb 6 (length (name ++ codes "Module")) ≡ true =
      lt→ltb 6 _ (omega (arith, length-append name (codes "Module"), h)) in
    rw
      (
        long,
        less,
        drop_append name (codes "Module"),
        take_append name (codes "Module"),
        text_eq_refl (codes "Module"),
      )
      refl

short_name-full_name : (name : Text) → name ≢ [] → short_name (full_name name) ≡ name
unfolding short_name
short_name-full_name name h =
    let long : ltb 2 (length (full_name name)) ≡ true =
      lt→ltb 2 _ (omega (arith, length-append name (codes "Module"))) in
    rw (long, text_eq_refl (codes "mo")) (cut_module name (positive name h))

module _ ⦃F : Floats⦄ where
  -- A class is created by its full name, with `mo` before it and `Module` after it, exactly as by
  -- its short name, when the name is not empty and is its own short name.
  pub create-full_name :
      (name : Text) (w : World)
      → name ≢ []
      → short_name name ≡ name
      → create (full_name name) w ≡ create name w
  unfolding create
  create-full_name name w h e =
      ap
        (λ n. elim (find n w.database) as (λ x. Option (ℕ × World)) [
          | none ↦ none
          | some class ↦ some (construct class w)
        ])
        (short_name-full_name name h ∙ sym e)
