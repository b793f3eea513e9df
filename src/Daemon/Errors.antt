-- ===== src/Daemon/Errors.antt =====
-- The loop of `main` in src/movid.cpp that logs the errors of the pipeline: when it ends.
use movid.Base.{
  ℕ, zero, suc, ◌+◌, ◌<◌, ◌≤◌, ◌≡◌, ◌≢◌, refl, ap, sym, subst, ◌∙◌, inl, inr, Text, Bool, true,
  false, none, some, List, [], ◌∷◌, ◌||◌, not, null, if◌then◌else◌, length, arith, Bool-cases,
  Option-cases, codes, ◌==◌,
}
use movid.Base.Dict.{find, text_key}
use movid.Float.{Floats}
use movid.Utils.{◌>>=◌}
use movid.World.{World, write_module}
use movid.Module.Properties.{touch, have_error, get_last_error}
use movid.Module.Links.{count, one_if}
use movid.Pipeline.{any_error, pipeline_have_error, pipeline_get_last_error, first_error}
use movid.Daemon.{drain_errors}

null-eq-nil : (t : Text) → null t ≡ true → t ≡ []
null-eq-nil [] h = refl
null-eq-nil (c ∷ t) h = cc

module _ ⦃F : Floats⦄ where
  -- How many of the modules have an error.
  unfoldable pub errors : List ℕ → World → ℕ
  errors [] w = 0
  errors (m ∷ ms) w = one_if (have_error m w) + errors ms w

  errors-le-length : (ms : List ℕ) (w : World) → errors ms w ≤ length ms
  unfolding errors
  errors-le-length [] w = omega arith
  errors-le-length (m ∷ ms) w = ground (arith, errors-le-length ms w)

  -- The error of the module is gone, and no other error, module or text of the pipeline changes.
  abbrev Clears : ℕ → World → World → Type 0
  Clears m w v =
      (v.elements ≡ w.elements)
      × (v.last_internal_error ≡ w.last_internal_error)
      × ((o : ℕ) → have_error o v ≡ (if m == o then false else have_error o w))

  touch_errors :
      (m : ℕ) (key : Text) (w : World)
      → ((touch m key w).elements ≡ w.elements)
        × ((touch m key w).last_internal_error ≡ w.last_internal_error)
        × ((o : ℕ) → have_error o (touch m key w) ≡ have_error o w)
  unfolding touch
  touch_errors m key w = elim (Option-cases (find key (w.modules m).properties)) [
    | inl e ↦ (rw (e, touch) refl, rw (e, touch) refl, λ o. rw (e, touch) (ground arith))
    | inr (p, e) ↦ (rw (e, touch) refl, rw (e, touch) refl, λ o. rw (e, touch) refl)
  ]

  get_last_error-Clears : (m : ℕ) (w : World) → Clears m w (get_last_error m w).1
  unfolding get_last_error
  get_last_error-Clears m w =
      let v = write_module m (record (w.modules m) { is_error = false }) w in
      let (a, b, c) = touch_errors m (codes "id") v in (a, b, λ o. c o ∙ ground arith)

  errors_quit :
      (w : World) (ms : List ℕ) (q : Bool) → errors ms (record w { want_quit = q }) ≡ errors ms w
  unfolding errors
  errors_quit w [] q = refl
  errors_quit w (o ∷ ms) q = ap (λ n. one_if (have_error o w) + n) (errors_quit w ms q)

  errors-le : (m : ℕ) (ms : List ℕ) (w v : World) → Clears m w v → errors ms v ≤ errors ms w
  unfolding errors
  errors-le m [] w v c = omega arith
  errors-le m (o ∷ ms) w v c = ground (arith, errors-le m ms w v c, c.2 o)

  errors-lt :
      (m : ℕ) (ms : List ℕ) (w v : World)
      → Clears m w v
      → 0 < count m ms
      → have_error m w ≡ true
      → errors ms v < errors ms w
  unfolding errors count
  errors-lt m [] w v c h e = absurd (omega arith)
  errors-lt m (o ∷ ms) w v c h e = ground (arith, errors-lt m ms w v c, errors-le m ms w v c, c.2 o)

  fewer :
      (t : Bool) (m : ℕ) (w v : World)
      → Clears m w v
      → 0 < count m w.elements
      → have_error m w ≡ true
      → errors v.elements (record v { want_quit = if t then true else v.want_quit })
        < errors w.elements w
  fewer t m w v c there bad = rw (errors_quit v v.elements (if t then true else v.want_quit)) (
      subst (λ ms. errors ms v < errors w.elements w) (sym (c.0))
        (errors-lt m w.elements w v c there bad))

  first_error_lem :
      (ms : List ℕ) (w : World)
      → any_error ms w ≡ true
      → (m : ℕ) × (0 < count m ms) × (have_error m w ≡ true) × Clears m w (first_error ms w).1
  unfolding first_error count
  first_error_lem [] w h = absurd (cc)
  first_error_lem (m ∷ ms) w h = elim (Bool-cases (have_error m w)) [
    | inl e ↦ (m, ground arith, e, rw (e, first_error) (get_last_error-Clears m w))
    | inr e ↦
        let (o, there, bad, same) = first_error_lem ms w (ground arith) in
        (o, ground arith, bad, rw (e, first_error) same)
  ]

  -- What one round of the loop leaves.
  abbrev noted : Bool → World → World
  noted t w =
      let w1 = (pipeline_get_last_error w).1 in
      record w1 { want_quit = if t then true else w1.want_quit }

  drain_errors_round :
      (f : ℕ) (t : Bool) (w : World)
      → pipeline_have_error w ≡ true
      → drain_errors (suc f) t w ≡ (do
        rest ← drain_errors f t (noted t w)
        some ((pipeline_get_last_error w).0 ∷ rest.0, rest.1))
  unfolding drain_errors
  drain_errors_round f t w e = rw (e, drain_errors)

  drain_errors_done :
      (f : ℕ) (t : Bool) (w : World)
      → pipeline_have_error w ≡ false
      → drain_errors (suc f) t w ≡ some ([], w)
  unfolding drain_errors
  drain_errors_done f t w e = rw (e, drain_errors)

  -- Without an error of its own the pipeline reports its modules'.
  reports :
      (w : World)
      → w.last_internal_error ≡ []
      → (pipeline_get_last_error w ≡ first_error w.elements w)
        × (pipeline_have_error w ≡ any_error w.elements w)
  unfolding pipeline_get_last_error pipeline_have_error
  reports w h = (
    ap (λ t. if not (null t) then (t, w) else first_error w.elements w) h,
    ap (λ t. not (null t) || any_error w.elements w) h,
  )

  -- One message taken from it leaves fewer modules with an error.
  drains :
      (t : Bool) (w : World)
      → w.last_internal_error ≡ []
      → pipeline_have_error w ≡ true
      → (errors (noted t w).elements (noted t w) < errors w.elements w)
        × ((noted t w).last_internal_error ≡ [])
  drains t w h e =
      let (m, there, bad, same) = first_error_lem w.elements w (sym ((reports w h).1) ∙ e) in
      let left : Clears m w (pipeline_get_last_error w).1 = rw ((reports w h).0) same in
      (fewer t m w _ left there bad, left.1 ∙ h)

  drain_errors_ends_lem :
      (f : ℕ) (t : Bool) (w : World)
      → w.last_internal_error ≡ []
      → errors w.elements w < f
      → (r : List Text × World) × (drain_errors f t w ≡ some r) × (pipeline_have_error r.1 ≡ false)
  drain_errors_ends_lem zero t w h k = elim k [ ]
  drain_errors_ends_lem (suc f) t w h k = elim (Bool-cases (pipeline_have_error w)) [
    | inr e ↦ (([], w), drain_errors_done f t w e, e)
    | inl e ↦
        let less = drains t w h e in
        let (r, ends, clean) =
          drain_errors_ends_lem f t (noted t w) less.1 (omega (arith, less.0)) in
        (((pipeline_get_last_error w).0 ∷ r.0, r.1), rw (drain_errors_round f t w e, ends), clean)
  ]

  -- Unless opening a pipeline file has failed, the loop of `main` that logs errors ends after at
  -- most one message for each module, and then neither the pipeline nor a module has an error.
  pub drain_errors_ends :
      (t : Bool) (w : World)
      → w.last_internal_error ≡ []
      → (r : List Text × World) × (drain_errors (suc (length w.elements)) t w ≡ some r)
        × (pipeline_have_error r.1 ≡ false)
  drain_errors_ends t w h =
      drain_errors_ends_lem (suc (length w.elements)) t w h
        (omega (arith, errors-le-length w.elements w))

  stuck :
      (t : Bool) (w : World)
      → w.last_internal_error ≢ []
      → (pipeline_have_error w ≡ true) × ((noted t w).last_internal_error ≢ [])
  unfolding pipeline_have_error pipeline_get_last_error
  stuck t w h = elim (Bool-cases (null w.last_internal_error)) [
    | inl e ↦ absurd (h (null-eq-nil w.last_internal_error e))
    | inr e ↦ (rw e, rw (e, noted) h)
  ]

  -- Once opening a pipeline file has failed, the same loop never ends: `getLastError` of the pipeline
  -- returns the error and does not reset it.
  pub drain_errors_stuck :
      (f : ℕ) (t : Bool) (w : World) → w.last_internal_error ≢ [] → drain_errors f t w ≡ none
  drain_errors_stuck zero t w h = unfold drain_errors in refl
  drain_errors_stuck (suc f) t w h =
      let again = stuck t w h in
      rw (drain_errors_round f t w again.0, drain_errors_stuck f t (noted t w) again.1)
