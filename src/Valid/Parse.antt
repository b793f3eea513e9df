-- ===== src/Valid/Parse.antt =====
-- Reading a pipeline keeps the daemon's objects well formed: the commands
-- of `parse` of src/moPipeline.cpp.
pub mod Lines
pub mod Calm
use movid.Base.{
  ℕ, zero, suc, ◌<◌, ◌+◌, ◌≡◌, ◌≢◌, refl, ap, sym, subst, ◌∙◌, inl, inr, Text, ℤ, Bool, true, false,
  Option, none, some, List, [], ◌∷◌, ◌++◌, ◌==◌, if◌then◌else◌, if-both, arith, Option-cases,
  Bool-cases, codes, text_eq, null, not, ◌&&◌, leb, length,
}
use movid.Float.{Floats}
use movid.Number.{atoi}
use movid.World.{World}
use movid.Utils.Split.{split}
use movid.Utils.Words.{words}
use movid.Module.Ports.{set_input, get_output}
use movid.Module.Properties.{
  have_error, get_last_error, set_property, set_property_read_only, set_property_text,
}
use movid.Factory.{create}
use movid.Pipeline.{get_module_by_id, add_element}
use movid.Pipeline.Parse.{
  Entry, Result, ok, error, fault, ◌>>=◌, or_fault, check_error, name_module, run_create, run_set,
  run_connect, create_command, set_command, connect_command, config_command, ParseState, Outcome,
  next, stopped, resume, set_entry, keep_entry, set_data, begin_data, end_data, boundary_line,
  settext_command, pipeline_command, command, tokens_line, parse_line, parse_lines, start_state,
  parse, boundary, white_space,
}
use movid.Valid.{IsValid, IsQuiet, IsQuiet-IsValid, same-IsQuiet, IsQuiet-refl, IsQuiet-trans}
use movid.Valid.Ports.{IsOld, set_input-IsValid}
use movid.Valid.Quiet.{
  set_property_returns, get_last_error-IsQuiet, set_property-IsQuiet,
  set_property_read_only-IsQuiet, set_property_text-IsQuiet,
}
use movid.Module.Links.{count}
use movid.Valid.Create.{
  Created, create-Created, add_element-IsValid, get_module_by_id_old, get_output-IsOld,
}

module _ ⦃F : Floats⦄ where
  -- What holds of the world of a result, if it has one, and of a fault.
  abbrev pub LeavesOr : Type 0 → (World → Type 0) → Result → Type 0
  LeavesOr D P (ok w) = P w
  LeavesOr D P (error w) = P w
  LeavesOr D P fault = D

  -- The result is no fault, and `P` holds of its world.
  abbrev pub Leaves : (World → Type 0) → Result → Type 0
  Leaves P r = LeavesOr ⊥ P r

  pub Leaves-weaken : (P : World → Type 0) (r : Result) → Leaves P r → LeavesOr Unit P r
  Leaves-weaken P (ok w) h = h
  Leaves-weaken P (error w) h = h
  Leaves-weaken P fault h = tt

  -- How often the module stands in the pipeline or among the deleted.
  abbrev listed : ℕ → World → ℕ
  listed m w = count m w.elements + count m w.freed

  -- The objects are well formed, and the module is allocated and listed `k` times.
  abbrev Stands : ℕ → ℕ → World → Type 0
  Stands k m w = IsValid w × (m < w.next_module) × (listed m w ≡ k)

  quiet-Stands : (k m : ℕ) (w v : World) → IsQuiet w v → Stands k m w → Stands k m v
  quiet-Stands k m w v q h = (
    IsQuiet-IsValid q h.0,
    omega (arith, q.same_next_module, h.1),
    rw (q.same_elements, q.same_freed) h.2,
  )

  check_error-Leaves :
      (k m o : ℕ) (w : World) → Stands k m w → Leaves (Stands k m) (check_error o w)
  unfolding check_error
  check_error-Leaves k m o w h = elim (Bool-cases (have_error o w)) [
    | inl e ↦ rw e (quiet-Stands k m w _ (get_last_error-IsQuiet o w) h)
    | inr e ↦ rw e h
  ]

  Leaves-map :
      (P Q : World → Type 0) (r : Result) → ((w : World) → P w → Q w) → Leaves P r → Leaves Q r
  Leaves-map P Q (ok w) q h = q w h
  Leaves-map P Q (error w) q h = q w h
  Leaves-map P Q fault q h = h

  bind-Leaves :
      (P Q : World → Type 0) (r : Result) (f : World → Result)
      → ((w : World) → P w → Q w)
      → Leaves P r
      → ((w : World) → P w → Leaves Q (f w))
      → Leaves Q (r >>= f)
  bind-Leaves P Q (ok w) f q h k = k w h
  bind-Leaves P Q (error w) f q h k = q w h
  bind-Leaves P Q fault f q h k = h

  set_property-Leaves :
      (k m o : ℕ) (key value : Text) (w : World)
      → Stands k m w
      → Leaves (Stands k m) (or_fault (set_property o key value w))
  set_property-Leaves k m o key value w h = elim (Option-cases (set_property o key value w)) [
    | inl e ↦ absurd (set_property_returns o key value w e)
    | inr (v, e) ↦ rw e (quiet-Stands k m w v (set_property-IsQuiet o key value w v e) h)
  ]

  name_module-Leaves :
      (id : Text) (m : ℕ) (w : World) → Stands 0 m w → Leaves IsValid (name_module id m w)
  unfolding name_module
  name_module-Leaves id m w h =
      bind-Leaves (Stands 0 m) IsValid (check_error m w) _ (λ v s. s.0)
        (check_error-Leaves 0 m m w h)
        λ w1 h1.
          bind-Leaves (Stands 0 m) IsValid (or_fault (set_property m (codes "id") id w1)) _
            (λ v s. s.0) (set_property-Leaves 0 m m (codes "id") id w1 h1)
            λ w2 h2.
              bind-Leaves (Stands 0 m) IsValid
                (check_error m (set_property_read_only m (codes "id") w2)) _ (λ v s. s.0)
                (check_error-Leaves 0 m m _
                  (quiet-Stands 0 m w2 _ (set_property_read_only-IsQuiet m (codes "id") w2) h2))
                λ w3 h3. add_element-IsValid m w3 h3.1 h3.2 h3.0

  run_create-Leaves :
      (class id : Text) (w : World) → IsValid w → Leaves IsValid (run_create class id w)
  unfolding run_create
  run_create-Leaves class id w h = elim (Option-cases (get_module_by_id id w)) [
    | inr (m, e) ↦ rw (e, run_create) h
    | inl e ↦ elim (Option-cases (create class w)) [
      | inl f ↦ rw (e, run_create) (rw f h)
      | inr ((m, v), f) ↦
          let made = create-Created class w (m, v) h f in
          rw (e, run_create) (rw f (name_module-Leaves id m v (made.0, made.1, made.3)))
    ]
  ]

  run_set-Leaves :
      (id key value : Text) (w : World) → IsValid w → Leaves IsValid (run_set id key value w)
  unfolding run_set
  run_set-Leaves id key value w h = elim (Option-cases (get_module_by_id id w)) [
    | inl e ↦ rw (e, run_set) h
    | inr (m, e) ↦
        let k = listed m w in
        let stands : Stands k m w = (h, get_module_by_id_old id w m h e, refl) in
        rw (e, run_set)
          (bind-Leaves (Stands k m) IsValid (or_fault (set_property m key value w)) (check_error m)
            (λ v s. s.0) (set_property-Leaves k m m key value w stands)
            λ v s.
              Leaves-map (Stands k m) IsValid (check_error m v) (λ u t. t.0)
                (check_error-Leaves k m m v s))
  ]

  checked-Leaves : (m : ℕ) (w : World) → IsValid w → Leaves IsValid (check_error m w)
  unfolding check_error
  checked-Leaves m w h = elim (Bool-cases (have_error m w)) [
    | inl e ↦ rw e (IsQuiet-IsValid (get_last_error-IsQuiet m w) h)
    | inr e ↦ rw e h
  ]

  run_connect-Leaves :
      (out_id out_index in_id in_index : Text) (w : World)
      → IsValid w
      → Leaves IsValid (run_connect out_id out_index in_id in_index w)
  unfolding run_connect
  run_connect-Leaves out_id out_index in_id in_index w h =
      elim (Option-cases (get_module_by_id out_id w)) [
        | inl e ↦ rw (e, run_connect) h
        | inr (m1, e) ↦ elim (Option-cases (get_module_by_id in_id w)) [
          | inl f ↦ rw (e, run_connect) (rw f h)
          | inr (m2, f) ↦
              let w' = set_input m2 (atoi in_index) (get_output m1 (atoi out_index) w) w in
              let h' =
                set_input-IsValid m2 (atoi in_index) (get_output m1 (atoi out_index) w) w
                  (get_module_by_id_old in_id w m2 h f) (get_output-IsOld m1 (atoi out_index) w h)
                  h in
              rw (e, run_connect)
                (rw f (
                  bind-Leaves IsValid IsValid (check_error m1 w') (check_error m2) (λ v k. k)
                    (checked-Leaves m1 w' h') (checked-Leaves m2)))
        ]
      ]

  pub create_command-Leaves :
      (args : List Text) (w : World) → IsValid w → Leaves IsValid (create_command args w)
  unfolding create_command
  create_command-Leaves [] w h = h
  create_command-Leaves (a ∷ []) w h = h
  create_command-Leaves (a ∷ b ∷ []) w h = run_create-Leaves a b w h
  create_command-Leaves (a ∷ b ∷ c ∷ args) w h = h

  pub set_command-Leaves :
      (args : List Text) (w : World) → IsValid w → Leaves IsValid (set_command args w)
  unfolding set_command
  set_command-Leaves [] w h = h
  set_command-Leaves (a ∷ []) w h = h
  set_command-Leaves (a ∷ b ∷ []) w h = run_set-Leaves a b [] w h
  set_command-Leaves (a ∷ b ∷ c ∷ []) w h = run_set-Leaves a b c w h
  set_command-Leaves (a ∷ b ∷ c ∷ d ∷ args) w h = h

  pub connect_command-Leaves :
      (args : List Text) (w : World) → IsValid w → Leaves IsValid (connect_command args w)
  unfolding connect_command
  connect_command-Leaves [] w h = h
  connect_command-Leaves (a ∷ []) w h = h
  connect_command-Leaves (a ∷ b ∷ []) w h = h
  connect_command-Leaves (a ∷ b ∷ c ∷ []) w h = h
  connect_command-Leaves (a ∷ b ∷ c ∷ d ∷ []) w h = run_connect-Leaves a b c d w h
  connect_command-Leaves (a ∷ b ∷ c ∷ d ∷ e ∷ args) w h = h

  pub config_command-Leaves :
      (args : List Text) (w : World) → IsValid w → Leaves IsValid (config_command args w)
  unfolding config_command
  config_command-Leaves [] w h = h
  config_command-Leaves (a ∷ []) w h = h
  config_command-Leaves (a ∷ b ∷ args) w h =
      if-both (Leaves IsValid) (text_eq a (codes "delay")) _ _
        (IsQuiet-IsValid (same-IsQuiet refl refl refl refl refl refl refl) h) h

  pub set_entry-Leaves :
      (enough : Bool) (text : Text) (e : Entry) (w : World)
      → IsValid w
      → LeavesOr Unit IsValid (set_entry enough text e w)
  unfolding set_entry
  set_entry-Leaves enough text e w h = elim (Option-cases (get_module_by_id e.module_id w)) [
    | inl f ↦ rw (f, set_entry) (if-both (LeavesOr Unit IsValid) enough _ _ h tt)
    | inr (m, f) ↦
        let k = listed m w in
        let stands : Stands k m w = (h, get_module_by_id_old e.module_id w m h f, refl) in
        rw (f, set_entry)
          (Leaves-weaken IsValid (or_fault (set_property m e.key text w) >>= _) (
            bind-Leaves (Stands k m) IsValid (or_fault (set_property m e.key text w)) _ (λ v s. s.0)
              (set_property-Leaves k m m e.key text w stands)
              λ v s.
                checked-Leaves m _ (IsQuiet-IsValid (set_property_text-IsQuiet m e.key v) s.0)))
  ]
