-- ===== src/Web/Search.antt =====
-- `getModuleById` of src/moPipeline.cpp: the search of the handlers of src/movid.cpp, and the loop of
-- the source, which creates the ids that it does not find.
use movid.Base.{ℕ, ◌≡◌, refl, ◌∙◌, Text, List, [], ◌∷◌, codes, text_eq, inl, inr, Bool-cases}
use movid.Float.{Floats}
use movid.World.{World}
use movid.Module.Properties.{touch, id_of}
use movid.Pipeline.{first_with_id, get_module_by_id, search_from, search_module_by_id}
use movid.Web.Json.Reads.{Reads, Reads-refl, Reads-trans, touch-Reads}

module _ ⦃F : Floats⦄ where
  -- The search depends on the ids alone.
  first_with_id-Reads :
      (id : Text) (ms : List ℕ) (w v : World)
      → Reads w v
      → first_with_id id ms v ≡ first_with_id id ms w
  unfolding first_with_id
  first_with_id-Reads id [] w v r = refl
  first_with_id-Reads id (m ∷ ms) w v r = rw (r.ids m, first_with_id-Reads id ms w v r) refl

  search_from_lem :
      (id : Text) (ms : List ℕ) (w : World)
      → ((search_from id ms w).0 ≡ first_with_id id ms w) × Reads w (search_from id ms w).1
  unfolding search_from first_with_id
  search_from_lem id [] w = (refl, Reads-refl w)
  search_from_lem id (m ∷ ms) w =
      let seen = touch m (codes "id") w in
      let r = touch-Reads m w in
      let (same, rest) = search_from_lem id ms seen in
      elim (Bool-cases (text_eq (id_of m w) id)) [
        | inl e ↦ (rw (r.ids m, e) refl, rw (r.ids m, e) r)
        | inr e ↦ (
          rw (r.ids m, e) (same ∙ first_with_id-Reads id ms w seen r),
          rw (r.ids m, e) (Reads-trans r rest),
        )
      ]

  -- The loop of the source finds the same module as the search that leaves the daemon alone, with
  -- which the handlers are modelled, and what it creates on its way changes no connection, element,
  -- class or id.
  pub search_module_by_id-Reads :
      (id : Text) (w : World)
      → ((search_module_by_id id w).0 ≡ get_module_by_id id w)
        × Reads w (search_module_by_id id w).1
  unfolding search_module_by_id get_module_by_id
  search_module_by_id-Reads id w = search_from_lem id w.elements w
