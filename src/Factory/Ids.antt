-- ===== src/Factory/Ids.antt =====
-- `createId` of src/moModule.cpp: when two ids are the same.
use movid.Base.{
  ℕ, ◌+◌, ◌%◌, ◌<◌, ◌≡◌, ◌≢◌, refl, ap, sym, ◌∙◌, Text, List, [], ◌∷◌, ◌++◌, length, arith,
}
use movid.Float.{Floats}
use movid.Number.{print_nat, read_digits}
use movid.Number.RoundTrip.{print_nat-Prints}
use movid.World.{World}
use movid.Factory.{create_id}

append_cancel : (xs ys zs : Text) → xs ++ ys ≡ xs ++ zs → ys ≡ zs
append_cancel [] ys zs h = h
append_cancel (x ∷ xs) ys zs h = append_cancel xs ys zs (cc)

print_nat_injective : (n m : ℕ) → print_nat n ≡ print_nat m → n ≡ m
print_nat_injective n m h =
    sym (print_nat-Prints n).1 ∙ ap (read_digits 0) h ∙ (print_nat-Prints m).1

module _ ⦃F : Floats⦄ where
  -- After ids for these bases were made, in turn.
  abbrev pub after_ids : List Text → World → World
  after_ids [] w = w
  after_ids (base ∷ bases) w = after_ids bases (create_id base w).1

  idcount-after_ids :
      (bases : List Text) (w : World)
      → w.idcount < 4294967296
      → (after_ids bases w).idcount ≡ (w.idcount + length bases) % 4294967296
  unfolding create_id
  idcount-after_ids [] w small = omega arith
  idcount-after_ids (base ∷ bases) w small =
      omega (arith, idcount-after_ids bases (create_id base w).1 (omega arith))

  idcount-create_id :
      (base : Text) (w : World) → (create_id base w).1.idcount ≡ (w.idcount + 1) % 4294967296
  unfolding create_id
  idcount-create_id base w = refl

  -- Two ids that are made for the same base are different texts, whatever ids are made between them,
  -- as long as these are fewer than 2^32 - 1, from a counter below 2^32, as an `unsigned int` is.
  pub create_id_unique :
      (base : Text) (between : List Text) (w : World)
      → w.idcount < 4294967296
      → length between < 4294967295
      → (create_id base w).0 ≢ (create_id base (after_ids between (create_id base w).1)).0
  create_id_unique base between w small few h =
      let v = after_ids between (create_id base w).1 in
      let same : w.idcount ≡ v.idcount =
        print_nat_injective w.idcount v.idcount (append_cancel base _ _ (unfold create_id in h)) in
      let one = idcount-create_id base w in
      omega (arith, same, one, idcount-after_ids between (create_id base w).1 (omega (arith, one)))
