-- ===== src/Valid/Create.antt =====
-- Creating a module keeps the daemon's objects well formed: src/moFactory.cpp, the constructor of
-- src/moModule.cpp, and `addElement` and `getModuleById` of src/moPipeline.cpp.
pub mod Outputs
use movid.Base.{
  ℕ, suc, ◌<◌, ◌+◌, ◌≡◌, ◌∙◌, refl, subst, inl, inr, Text, ℤ, true, none, some, List, [], ◌∷◌,
  arith, Option-cases, text_eq,
}
use movid.Base.Dict.{Dict, find, insert, find-insert, text_key, int_key}
use movid.Float.{Floats}
use movid.World.{Info, Port, Module, ModuleClass, World, write_module, write_stream}
use movid.DataStream.{new_stream}
use movid.Module.Ports.{get_output, stream_of}
use movid.Module.Properties.{id_of}
use movid.Module.Links.{count, count-snoc, ports_on}
use movid.Factory.{
  base_inits, input_ports, create_id, new_module, add_outputs, construct, create, short_name,
}
use movid.Pipeline.{add_element, get_module_by_id, first_with_id}
use movid.Valid.{Numbered, IsValid, IsQuiet, IsQuiet-IsValid, IsQuiet-trans, same-IsQuiet}
use movid.Valid.Ports.{IsOld}
use movid.Valid.Create.Outputs.{add_outputs-IsValid, next-add_outputs, inputs-add_outputs}

-- No input that a class declares holds a stream.
ports_on-insert :
    (s : ℕ) (n : ℤ) (info : Info) (ps : Dict ℤ Port)
    → ports_on s ps ≡ 0
    → ports_on s (insert n (record { stream = none; info = info }) ps) ≡ 0
unfolding ports_on insert
ports_on-insert s n info [] h = refl
ports_on-insert s n info ((k, p) ∷ ps) h = ground (arith, ports_on-insert s n info ps)

ports_on-input_ports :
    (s : ℕ) (infos : List (ℤ × Info)) (ps : Dict ℤ Port)
    → ports_on s ps ≡ 0
    → ports_on s (input_ports infos ps) ≡ 0
unfolding input_ports
ports_on-input_ports s [] ps h = h
ports_on-input_ports s ((n, info) ∷ infos) ps h =
    ports_on-input_ports s infos _ (ports_on-insert s n info ps h)

module _ ⦃F : Floats⦄ where
  -- A module in the place of one that is not allocated, without outputs and without streams.
  place-IsValid :
      (v : Module) (w : World)
      → IsValid w
      → ((s : ℕ) → ports_on s v.inputs ≡ 0)
      → Numbered 0 v.inputs
      → ((n : ℤ) → stream_of (find n v.outputs) ≡ none)
      → IsValid (write_module w.next_module v (record w { next_module = suc w.next_module }))
  place-IsValid v w h free num none_ = record {
    linked = record {
      counted = λ m s. ground (arith, h.linked.counted m s, free s, h.sound.fresh_module m s);
    };
    sound = record {
      fresh_module = λ m s k. ground (arith, h.sound.fresh_module m s);
      fresh_stream = h.sound.fresh_stream;
      outputs_old = λ m n s e. ground (arith, none_ n, h.sound.outputs_old m n s);
      elements_old = λ m k. ground (arith, h.sound.elements_old m);
      numbered = λ m. ground (arith, h.sound.numbered m);
      classes = h.sound.classes;
      once = h.sound.once;
      freed_old = λ o k. omega (arith, h.sound.freed_old o k);
    };
  }

  new_module-outputs :
      (class : ModuleClass) (m : ℕ) (id : Text) (n : ℤ)
      → stream_of (find n (new_module class m id).outputs) ≡ none
  unfolding new_module find
  new_module-outputs class m id n = refl

  inputs-new_module :
      (class : ModuleClass) (m : ℕ) (id : Text)
      → (new_module class m id).inputs ≡ input_ports class.class_inputs []
  unfolding new_module
  inputs-new_module class m id = refl

  new_module-unplugged :
      (class : ModuleClass) (m : ℕ) (id : Text) (s : ℕ)
      → ports_on s (new_module class m id).inputs ≡ 0
  new_module-unplugged class m id s =
      rw (inputs-new_module class m id)
        (ports_on-input_ports s class.class_inputs [] (unfold ports_on in refl))

  create_id-IsQuiet : (base : Text) (w : World) → IsQuiet w ((create_id base w).1)
  unfolding create_id
  create_id-IsQuiet base w = same-IsQuiet refl refl refl refl refl refl refl

  -- Neither in the pipeline nor deleted.
  abbrev pub IsUnlisted : ℕ → World → Type 0
  IsUnlisted m w = count m w.elements + count m w.freed ≡ 0

  next-IsUnlisted : (w : World) → IsValid w → IsUnlisted w.next_module w
  next-IsUnlisted w h =
      grind (arith, h.sound.elements_old w.next_module, h.sound.freed_old w.next_module)

  -- What a creation leaves: well-formed objects, of which the new one is allocated and in no list.
  abbrev pub Created : ℕ × World → World → Type 0
  Created r w =
      IsValid r.1 × (r.0 < r.1.next_module) × (r.1.elements ≡ w.elements) × IsUnlisted r.0 r.1

  construct-Created :
      (class : ModuleClass) (w : World)
      → IsValid w
      → Numbered 0 (input_ports class.class_inputs [])
      → Created (construct class w) w
  unfolding construct
  construct-Created class w h num =
      let q =
        IsQuiet-trans (same-IsQuiet refl refl refl refl refl refl refl)
          (create_id-IsQuiet class.class_name (base_inits class w)) in
      let w' = (create_id class.class_name (base_inits class w)).1 in
      let id = (create_id class.class_name (base_inits class w)).0 in
      let m = w.next_module in
      let placed =
        place-IsValid (new_module class m id) w' (IsQuiet-IsValid q h)
          (new_module-unplugged class m id) (rw (inputs-new_module class m id) num)
          (new_module-outputs class m id) in
      let kept = next-add_outputs m class.class_outputs _ in
      (
        add_outputs-IsValid m class.class_outputs _ placed,
        omega (arith, kept.0),
        kept.1,
        rw (kept.1, kept.3) (next-IsUnlisted w h),
      )

  -- Creating a module of a class, whichever name it is asked for by.
  pub create-Created :
      (name : Text) (w : World) (r : ℕ × World) → IsValid w → create name w ≡ some r → Created r w
  unfolding create
  create-Created name w r h e = elim (Option-cases (find (short_name name) w.database)) [
    | inl none_ ↦ absurd (cc)
    | inr (class, found) ↦
        let same : construct class w ≡ r = cc in
        subst (λ r. Created r w) same (construct-Created class w h (h.sound.classes _ class found))
  ]

  construct-unplugged :
      (class : ModuleClass) (w : World) (s : ℕ)
      → ports_on s ((construct class w).1.modules (construct class w).0).inputs ≡ 0
  unfolding construct
  construct-unplugged class w s =
      let m = w.next_module in
      let id = (create_id class.class_name (base_inits class w)).0 in
      rw
        (inputs-add_outputs m class.class_outputs (
          write_module m (new_module class m id)
            (record (create_id class.class_name (base_inits class w)).1 { next_module = suc m })))
        (ground (arith, new_module-unplugged class m id s))

  -- A module that was just created holds no stream.
  pub create-unplugged :
      (name : Text) (w : World) (r : ℕ × World) (s : ℕ)
      → create name w ≡ some r
      → ports_on s (r.1.modules r.0).inputs ≡ 0
  unfolding create
  create-unplugged name w r s e = elim (Option-cases (find (short_name name) w.database)) [
    | inl none_ ↦ absurd (cc)
    | inr (class, found) ↦
        let same : construct class w ≡ r = cc in
        subst (λ (x : ℕ × World). ports_on s (x.1.modules x.0).inputs ≡ 0) same
          (construct-unplugged class w s)
  ]

  pub add_element-IsValid :
      (m : ℕ) (w : World)
      → m < w.next_module
      → IsUnlisted m w
      → IsValid w
      → IsValid (add_element m w)
  unfolding add_element
  add_element-IsValid m w old new h = record {
    linked = record { counted = λ o s. ground (arith, h.linked.counted o s) };
    sound = record {
      fresh_module = λ o s k. ground (arith, h.sound.fresh_module o s k);
      fresh_stream = h.sound.fresh_stream;
      outputs_old = λ o n s e. ground (arith, h.sound.outputs_old o n s);
      elements_old = λ o k. ground (arith, count-snoc o m w.elements, h.sound.elements_old o);
      numbered = λ o. ground (arith, h.sound.numbered o);
      classes = h.sound.classes;
      once = λ o. ground (arith, count-snoc o m w.elements, h.sound.once o, new);
      freed_old = h.sound.freed_old;
    };
  }

  -- A module that is found by its id is one of the pipeline's, and allocated.
  first_with_id-some :
      (id : Text) (ms : List ℕ) (w : World) (m : ℕ)
      → first_with_id id ms w ≡ some m
      → (0 < count m ms) × (text_eq (id_of m w) id ≡ true)
  unfolding first_with_id count
  first_with_id-some id [] w m h = cc
  first_with_id-some id (o ∷ ms) w m h = ground (arith, first_with_id-some id ms w m)

  pub get_module_by_id-some :
      (id : Text) (w : World) (m : ℕ)
      → get_module_by_id id w ≡ some m
      → (0 < count m w.elements) × (text_eq (id_of m w) id ≡ true)
  unfolding get_module_by_id
  get_module_by_id-some id w m h = first_with_id-some id w.elements w m h

  pub get_module_by_id_old :
      (id : Text) (w : World) (m : ℕ)
      → IsValid w
      → get_module_by_id id w ≡ some m
      → m < w.next_module
  get_module_by_id_old id w m h e = h.sound.elements_old m (get_module_by_id-some id w m e).0

  -- An output holds a stream that is allocated, or none.
  pub get_output-IsOld : (m : ℕ) (n : ℤ) (w : World) → IsValid w → IsOld (get_output m n w) w
  get_output-IsOld m n w h = elim (Option-cases (get_output m n w)) [
    | inl e ↦ rw e tt
    | inr (s, e) ↦ rw e (h.sound.outputs_old m n s e)
  ]
