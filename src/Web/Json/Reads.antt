-- ===== src/Web/Json/Reads.antt =====
-- The status of src/movid.cpp can be asked for at any time, and asking changes nothing that matters.
use movid.Base.{
  ℕ, zero, suc, ◌+◌, ◌<◌, ◌≤◌, ◌≡◌, refl, ◌∙◌, ap, sym, subst, Text, ℤ, pos, false, none, some,
  List, [], ◌∷◌, codes, length, arith, ◌==◌, ==_iff, text_eq, ap₂, map, fun_ext, Bool-cases, inl,
  inr, Option-cases,
}
use movid.Base.Dict.{Dict, find, insert, int_key, text_key, find-insert}
use movid.Float.{Floats}
use movid.World.{Port, Module, World, write_module}
use movid.Module.Ports.{get_input_count, get_output_count}
use movid.Module.Properties.{touch, id_of, property, auto_created, or_created}
use movid.Property.{Property, as_string}
use movid.Valid.{Numbered, IsValid, IsQuiet, IsQuiet-refl, IsQuiet-trans, IsQuiet-IsValid}
use movid.Valid.Quiet.{touch-IsQuiet}
use movid.Web.Json.{
  Json, object, Members, no_members, member, Items, no_items, item, port_members, port_items, used,
  observer_members, observers_of, output_items, module_json, status_json, module_status,
  modules_status, web_pipeline_status,
}

after_hit : (i j : ℕ) → (i == j) ≡ false → i ≤ j → suc i ≤ j
after_hit i j e h = ground arith

find-Numbered :
    (ps : Dict ℤ Port) (i j : ℕ)
    → Numbered i ps
    → i ≤ j
    → j < i + length ps
    → (p : Port) × (find (pos j) ps ≡ some p)
unfolding find
find-Numbered [] i j n lo hi = absurd (omega arith)
find-Numbered ((z, p) ∷ ps) i j n lo hi = elim (Bool-cases (i == j)) [
  | inl e ↦ (p, rw (n.0, e) refl)
  | inr e ↦
      let (q, f) = find-Numbered ps (suc i) j n.1 (after_hit i j e lo) (omega arith) in
      (q, rw (n.0, e) f)
]

module _ ⦃F : Floats⦄ where
  port_items_total :
      (more : Port → Members) (ports : Dict ℤ Port) (k i : ℕ)
      → Numbered 0 ports
      → i + k ≤ length ports
      → (items : Items) × (port_items more ports k i ≡ some items)
  unfolding port_items
  port_items_total more ports zero i n h = (no_items, refl)
  port_items_total more ports (suc k) i n h =
      let (p, e) = find-Numbered ports 0 i n (omega arith) (omega arith) in
      let (rest, f) = port_items_total more ports k (suc i) n (omega arith) in
      (item (port_members i p (more p)) rest, rw (e, f) refl)

  -- Nothing that matters changes: no connection, no element, and no id.
  pub record Reads (w v : World) : Type 0 where
    pub quiet : IsQuiet w v
    pub ids : (m : ℕ) → id_of m v ≡ id_of m w

  pub Reads-refl : (w : World) → Reads w w
  Reads-refl w = record { quiet = IsQuiet-refl w; ids = λ m. refl }

  pub Reads-trans : {u v w : World} → Reads u v → Reads v w → Reads u w
  Reads-trans a b = record { quiet = IsQuiet-trans a.quiet b.quiet; ids = λ m. b.ids m ∙ a.ids m }

  -- The module after `property("id")` created the property.
  abbrev created : ℕ → World → Module
  created o w = record (w.modules o) {
    properties = insert (codes "id") auto_created (w.modules o).properties;
  }

  found_id :
      (ps : Dict Text Property)
      → find (codes "id") (insert (codes "id") auto_created ps) ≡ some auto_created
  unfolding text_eq
  found_id ps = find-insert (codes "id") (codes "id") auto_created ps

  created_id :
      (o m : ℕ) (w : World)
      → find (codes "id") (w.modules o).properties ≡ none
      → or_created (find (codes "id") ((write_module o (created o w) w).modules m).properties)
        ≡ or_created (find (codes "id") (w.modules m).properties)
  created_id o m w e = elim (Bool-cases (o == m)) [
    | inl h ↦ rw h (
        ap or_created (found_id (w.modules o).properties)
        ∙ ap or_created (sym e)
        ∙ ap (λ x. or_created (find (codes "id") (w.modules x).properties)) ((==_iff o m).0 h))
    | inr h ↦ rw h refl
  ]

  touch_missing :
      (o : ℕ) (w : World)
      → find (codes "id") (w.modules o).properties ≡ none
      → touch o (codes "id") w ≡ write_module o (created o w) w
  unfolding touch
  touch_missing o w e = rw (e, touch) refl

  touch_present :
      (o : ℕ) (w : World) (p : Property)
      → find (codes "id") (w.modules o).properties ≡ some p
      → touch o (codes "id") w ≡ w
  unfolding touch
  touch_present o w p e = rw (e, touch) refl

  touched_id :
      (o m : ℕ) (w : World)
      → find (codes "id") (w.modules o).properties ≡ none
      → id_of m (touch o (codes "id") w) ≡ id_of m w
  unfolding id_of
  touched_id o m w e =
      ap (id_of m) (touch_missing o w e) ∙ unfold property in (ap as_string (created_id o m w e))

  pub touch-Reads : (o : ℕ) (w : World) → Reads w (touch o (codes "id") w)
  touch-Reads o w = record {
    quiet = touch-IsQuiet o (codes "id") w;
    ids = λ m. elim (Option-cases (find (codes "id") (w.modules o).properties)) [
      | inl e ↦ touched_id o m w e
      | inr (p, e) ↦ ap (id_of m) (touch_present o w p e)
    ];
  }

  pub observer_members-Reads :
      (os : List ℕ) (j : ℕ) (w : World) → Reads w (observer_members os j w).1
  unfolding observer_members
  observer_members-Reads [] j w = Reads-refl w
  observer_members-Reads (o ∷ os) j w =
      Reads-trans (touch-Reads o w) (observer_members-Reads os (suc j) (touch o (codes "id") w))

  output_items_total :
      (m k i : ℕ) (w : World)
      → Numbered 0 (w.modules m).outputs
      → i + k ≤ length (w.modules m).outputs
      → (items : Items) × (v : World) × (output_items m k i w ≡ some (items, v)) × Reads w v
  unfolding output_items
  output_items_total m zero i w n h = (no_items, w, refl, Reads-refl w)
  output_items_total m (suc k) i w n h =
      let (p, e) = find-Numbered (w.modules m).outputs 0 i n (omega arith) (omega arith) in
      let seen = observer_members (observers_of p.stream w) 0 w in
      let q = observer_members-Reads (observers_of p.stream w) 0 w in
      let same = sym (q.quiet.same_outputs m) in
      let (rest, v, f, r) =
        output_items_total m k (suc i) seen.1 (subst (Numbered 0) same n)
          (subst (λ (ps : Dict ℤ Port). suc i + k ≤ length ps) same (omega arith)) in
      (
        item (port_members i p (used p (member (codes "observers") (object seen.0) no_members)))
            rest,
        v,
        rw (e, f) refl,
        Reads-trans q r,
      )

  module_status_total :
      (description author : Text → Text) (m : ℕ) (w : World)
      → IsValid w
      → Numbered 0 (w.modules m).outputs
      → (j : Json) × (v : World) × (module_status description author m w ≡ some (j, v)) × Reads w v
  unfolding module_status
  module_status_total description author m w valid n =
      let (ins, e) =
        port_items_total (λ p. used p no_members) (w.modules m).inputs (get_input_count m w) 0
          (valid.sound.numbered m) (omega arith) in
      let (outs, v, f, q) = output_items_total m (get_output_count m w) 0 w n (omega arith) in
      (module_json description author m w ins outs, v, rw (e, f) refl, q)

  -- The members of an object, by name.
  abbrev pub names_of : Members → List Text
  names_of no_members = []
  names_of (member name value rest) = name ∷ names_of rest

  modules_status_total :
      (description author : Text → Text) (ms : List ℕ) (w : World)
      → IsValid w
      → ((m : ℕ) → Numbered 0 (w.modules m).outputs)
      → (members : Members) × (v : World) × (modules_status description author ms w
          ≡ some (members, v))
        × (names_of members ≡ map (λ m. id_of m w) ms)
        × Reads w v
  unfolding modules_status
  modules_status_total description author [] w valid n = (no_members, w, refl, refl, Reads-refl w)
  modules_status_total description author (m ∷ ms) w valid n =
      let t = touch-Reads m w in
      let w1 = touch m (codes "id") w in
      let (j, w2, e, q) =
        module_status_total description author m w1 (IsQuiet-IsValid t.quiet valid)
          (subst (Numbered 0) (sym (t.quiet.same_outputs m)) (n m)) in
      let r = Reads-trans t q in
      let (members, v, f, same, rest) =
        modules_status_total description author ms w2 (IsQuiet-IsValid r.quiet valid)
          (λ o. subst (Numbered 0) (sym (r.quiet.same_outputs o)) (n o)) in
      (
        member (id_of m w) j members,
        v,
        rw (e, f) refl,
        ap₂ (λ x xs. x ∷ xs) refl (same ∙ ap (λ g. map g ms) (fun_ext r.ids)),
        Reads-trans r rest,
      )

  -- The status can always be asked for: on well-formed objects whose outputs are numbered from 0 the
  -- handler replies, with a tree whose `modules` stand under the ids of the pipeline's modules in
  -- their order; no connection, element, class or id changes, so that the objects stay well formed.
  pub web_pipeline_status-Reads :
      (description author : Text → Text) (w : World)
      → IsValid w
      → ((m : ℕ) → Numbered 0 (w.modules m).outputs)
      → (members : Members) × (v : World) × (web_pipeline_status description author w
          ≡ some (status_json members w, v))
        × (names_of members ≡ map (λ m. id_of m w) w.elements)
        × Reads w v
        × IsValid v
  unfolding web_pipeline_status
  web_pipeline_status-Reads description author w valid n =
      let (members, v, e, same, r) = modules_status_total description author w.elements w valid n in
      (members, v, rw e refl, same, r, IsQuiet-IsValid r.quiet valid)
