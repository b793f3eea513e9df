-- ===== src/Valid/Remove.antt =====
-- Taking a module out: `removeObserver` for its inputs and `removeObservers` for its outputs, which
-- `web_pipeline_remove` of src/movid.cpp runs before it deletes the module.
use movid.Base.{
  ℕ, ◌+◌, ◌<◌, ◌≡◌, ◌≢◌, refl, ap, sym, ◌∙◌, inl, inr, ℤ, pos, none, some, [], arith, Option-cases,
}
use movid.Base.Dict.{find, int_key}
use movid.Float.{Floats}
use movid.World.{Port, World}
use movid.DataStream.{erase, remove_observer}
use movid.Module.Ports.{
  stream_of, get_input, set_input, write_input, check_input, disconnect, connected,
  remove_observers,
}
use movid.Module.Links.{
  count, count-erase_ne, count-erase_self, ports_on, ports_on_pos, ports_on-modify,
}
use movid.Module.Disconnect.{connected-none, remove_observers_rule, unobserved}
use movid.Valid.{IsSound}
use movid.Valid.Ports.{Numbered-hit, remove_observer-IsSound, write_input-IsSound}
use native.Mathlib.Decide.{dec_lt}

module _ ⦃F : Floats⦄ where
  -- Observers and inputs agree for every module but `m`, which observes no stream.
  pub record IsDetached (m : ℕ) (w : World) : Type 0 where
    pub counted :
        (o s : ℕ) → o ≢ m → count o (w.streams s).observers ≡ ports_on s (w.modules o).inputs
    pub unobserving : (s : ℕ) → count m (w.streams s).observers ≡ 0
    pub sound : IsSound w

  -- The pipeline and the outputs stay, and a stream without observers stays so.
  pub record Frees (w v : World) : Type 0 where
    pub same_elements : v.elements ≡ w.elements
    pub same_outputs : (m : ℕ) → (v.modules m).outputs ≡ (w.modules m).outputs
    pub stay_empty : (s : ℕ) → (w.streams s).observers ≡ [] → (v.streams s).observers ≡ []

  pub Frees-refl : (w : World) → Frees w w
  Frees-refl w = record { same_elements = refl; same_outputs = λ m. refl; stay_empty = λ s h. h }

  pub Frees-trans : {u v w : World} → Frees u v → Frees v w → Frees u w
  Frees-trans a b = record {
    same_elements = b.same_elements ∙ a.same_elements;
    same_outputs = λ m. b.same_outputs m ∙ a.same_outputs m;
    stay_empty = λ s h. b.stay_empty s (a.stay_empty s h);
  }

  -- Taking off an input the stream that it holds.
  set_input-hit :
      (o : ℕ) (n : ℤ) (s : ℕ) (w : World)
      → get_input o n w ≡ some s
      → (p : Port) × (find n (w.modules o).inputs ≡ some p)
        × (p.stream ≡ some s)
        × (set_input o n none w ≡ write_input o n none (remove_observer s o w))
  unfolding set_input check_input
  set_input-hit o n s w h = elim (Option-cases (find n (w.modules o).inputs)) [
    | inl e ↦ absurd (cc (ap stream_of e))
    | inr (p, e) ↦
        let held : p.stream ≡ some s = sym (ap stream_of e) ∙ h in
        (p, e, held, rw (e, set_input) (ap (λ x. write_input o n none (disconnect x o w)) held))
  ]

  -- A module whose input holds a stream is allocated.
  holder_old :
      (o : ℕ) (n : ℤ) (s : ℕ) (w : World) (p : Port)
      → IsSound w
      → find n (w.modules o).inputs ≡ some p
      → p.stream ≡ some s
      → o < w.next_module
  holder_old o n s w p h found held = elim (dec_lt o w.next_module) [
    | yes old ↦ old
    | no fresh ↦ absurd (
        omega (
          arith,
          ports_on_pos s n (w.modules o).inputs p found held,
          h.fresh_module o s (omega arith),
        ))
  ]

  cut-IsDetached :
      (m o : ℕ) (n : ℤ) (s : ℕ) (w : World) (p : Port)
      → IsDetached m w
      → find n (w.modules o).inputs ≡ some p
      → p.stream ≡ some s
      → 0 < count o (w.streams s).observers
      → IsDetached m (write_input o n none (remove_observer s o w))
  cut-IsDetached m o n s w p d found held there = record {
    counted = λ q t ne.
        unfold write_input remove_observer in
        ground (
          arith,
          d.counted q t ne,
          count-erase_self o (w.streams s).observers,
          count-erase_ne q o (w.streams s).observers,
          ports_on-modify t n none (w.modules o).inputs p found,
        );
    unobserving = λ t.
        unfold write_input remove_observer in
        ground
          (arith, d.unobserving t, d.unobserving s, count-erase_ne m o (w.streams s).observers);
    sound =
        write_input-IsSound o n none (remove_observer s o w)
          (unfold remove_observer in holder_old o n s w p d.sound found held)
          (remove_observer-IsSound s o w d.sound);
  }

  cut-Frees :
      (o : ℕ) (n : ℤ) (s : ℕ) (w : World) → Frees w (write_input o n none (remove_observer s o w))
  unfolding write_input remove_observer erase
  cut-Frees o n s w = record {
    same_elements = refl;
    same_outputs = λ m. ground arith;
    stay_empty = λ t h. ground arith;
  }

  -- Once no observer of the stream is connected to it, no other input holds it.
  none_on :
      (m s o : ℕ) (w : World)
      → IsDetached m w
      → connected s (w.streams s).observers w ≡ none
      → o ≢ m
      → ports_on s (w.modules o).inputs ≡ 0
  none_on m s o w d e ne = elim (dec_lt 0 (ports_on s (w.modules o).inputs)) [
    | no zero_ ↦ omega arith
    | yes some_ ↦
        let (j, a, b) = Numbered-hit s 0 (w.modules o).inputs (d.sound.numbered o) some_ in
        let at_j : 0 + j ≡ j = omega arith in
        absurd (
          connected-none s (w.streams s).observers w o j e (omega (arith, d.counted o s ne)) a
            (rw at_j at b))
  ]

  unobserved-IsDetached :
      (m s : ℕ) (w : World)
      → IsDetached m w
      → connected s (w.streams s).observers w ≡ none
      → IsDetached m (unobserved s w)
  unobserved-IsDetached m s w d e = record {
    counted = λ o t ne. unfold count in ground (arith, d.counted o t ne, none_on m s o w d e ne);
    unobserving = λ t. unfold count in ground (arith, d.unobserving t);
    sound = record {
      fresh_module = d.sound.fresh_module;
      fresh_stream = λ t k. ground (arith, d.sound.fresh_stream t k);
      outputs_old = d.sound.outputs_old;
      elements_old = d.sound.elements_old;
      numbered = d.sound.numbered;
      classes = d.sound.classes;
      once = d.sound.once;
      freed_old = d.sound.freed_old;
    };
  }

  -- What `removeObservers` does once the module observes nothing.
  abbrev pub Freed : ℕ → ℕ → World → World → Type 0
  Freed m s w v = IsDetached m v × Frees w v × ((v.streams s).observers ≡ [])

  pub remove_observers-Freed :
      (m s : ℕ) (w : World)
      → IsDetached m w
      → (v : World) × (remove_observers s w ≡ some v) × Freed m s w v
  remove_observers-Freed m s w d =
      let (v, kept, none_left, ends) =
        remove_observers_rule (λ u. IsDetached m u × Frees w u) s (round m s w) w
          (d, Frees-refl w) in
      (
        unobserved s v,
        ends,
        (
          unobserved-IsDetached m s v kept.0 none_left,
          Frees-trans kept.1 (unobserved-Frees s v),
          ground arith,
        ),
      )
    where
      round :
          (m s : ℕ) (w u : World) (o i : ℕ)
          → IsDetached m u × Frees w u
          → get_input o (pos i) u ≡ some s
          → 0 < count o (u.streams s).observers
          → IsDetached m (set_input o (pos i) none u) × Frees w (set_input o (pos i) none u)
      round m s w u o i h held there =
          let (p, found, on, same) = set_input-hit o (pos i) s u held in
          rw same (
            cut-IsDetached m o (pos i) s u p h.0 found on there,
            Frees-trans h.1 (cut-Frees o (pos i) s u),
          )

      unobserved-Frees : (s : ℕ) (v : World) → Frees v (unobserved s v)
      unobserved-Frees s v = record {
        same_elements = refl;
        same_outputs = λ m. refl;
        stay_empty = λ t h. ground arith;
      }
