-- ===== src/Web/Disconnect.antt =====
-- `web_pipeline_remove` of src/movid.cpp: the loop that frees the streams of its outputs, and both
-- loops together.
pub mod Inputs
use movid.Base.{
  ℕ, zero, suc, ◌+◌, ◌<◌, ◌≤◌, ◌≡◌, ◌≢◌, refl, ap, subst, ◌∙◌, inl, inr, ℤ, pos, none, some, List,
  [], ◌∷◌, arith, Option-cases, length,
}
use movid.Base.Dict.{Dict, find, int_key}
use movid.Float.{Floats}
use movid.World.{Port, World}
use movid.DataStream.{erase, remove_observer}
use movid.Module.Ports.{
  stream_of, get_input, get_output, get_input_count, get_output_count, remove_observers,
}
use movid.Module.Lifecycle.{stop}
use movid.Module.Links.{count, count-erase_ne, count-erase_self, ports_on}
use movid.Pipeline.{remove_element, delete_module}
use movid.Valid.{Numbered, IsSound, IsValid}
use movid.Valid.Ports.{find_head, find_tail, remove_observer-IsSound}
use movid.Valid.Remove.{IsDetached, Frees, Frees-refl, Frees-trans, remove_observers-Freed}
use native.Mathlib.Decide.{dec_lt}
use movid.Web.Disconnect.Inputs.{forget_inputs-Frees, forget_inputs-IsDetached}
use movid.Web.{forget_inputs, free_outputs, disconnect_module}

module _ ⦃F : Floats⦄ where
  -- The outputs from `i` on, of which there are `k`, have no observers.
  abbrev pub Emptied : ℕ → ℕ → ℕ → World → Type 0
  Emptied m k i v =
      (j s : ℕ) → i ≤ j → j < i + k → get_output m (pos j) v ≡ some s → (v.streams s).observers ≡ []

  grow-Emptied :
      (m k i : ℕ) (v : World)
      → Emptied m k (suc i) v
      → ((s : ℕ) → get_output m (pos i) v ≡ some s → (v.streams s).observers ≡ [])
      → Emptied m (suc k) i v
  grow-Emptied m k i v h first j s a b o = elim (dec_lt i j) [
    | yes after ↦ h j s after (omega arith) o
    | no before ↦ let here : j ≡ i = omega arith in first s (rw here at o)
  ]

  same_output :
      (m i : ℕ) (w v : World) → Frees w v → get_output m (pos i) v ≡ get_output m (pos i) w
  same_output m i w v f = ap (λ ps. stream_of (find (pos i) ps)) (f.same_outputs m)

  free_outputs-none :
      (m k i : ℕ) (w : World)
      → get_output m (pos i) w ≡ none
      → free_outputs m (suc k) i w ≡ free_outputs m k (suc i) w
  unfolding free_outputs
  free_outputs-none m k i w e = rw (e, free_outputs)

  free_outputs-some :
      (m k i s : ℕ) (w u : World)
      → get_output m (pos i) w ≡ some s
      → remove_observers s w ≡ some u
      → free_outputs m (suc k) i w ≡ free_outputs m k (suc i) u
  unfolding free_outputs
  free_outputs-some m k i s w u e ran = rw (e, free_outputs) (rw ran)

  free_outputs-Emptied :
      (m k i : ℕ) (w : World)
      → IsDetached m w
      → (v : World) × (free_outputs m k i w ≡ some v)
        × (IsDetached m v × Frees w v × Emptied m k i v)
  free_outputs-Emptied m zero i w d =
      (w, (unfold free_outputs in refl), (d, Frees-refl w, λ j s a b. absurd (omega arith)))
  free_outputs-Emptied m (suc k) i w d = elim (Option-cases (get_output m (pos i) w)) [
    | inl e ↦
        let (v, ends, (d', f, h)) = free_outputs-Emptied m k (suc i) w d in
        (
          v,
          free_outputs-none m k i w e ∙ ends,
          (d', f, grow-Emptied m k i v h λ s o. absurd (cc (same_output m i w v f))),
        )
    | inr (t, e) ↦
        let (u, ran, (d1, f1, e1)) = remove_observers-Freed m t w d in
        let (v, ends, (d', f, h)) = free_outputs-Emptied m k (suc i) u d1 in
        (
          v,
          free_outputs-some m k i t w u e ran ∙ ends,
          (
            d',
            Frees-trans f1 f,
            grow-Emptied m k i v h λ s o.
                let same : t ≡ s = cc (same_output m i w v (Frees-trans f1 f)) in
                subst (λ x. (v.streams x).observers ≡ []) same (f.stay_empty t e1),
          ),
        )
  ]

  -- The module is taken off every stream, and no stream of its outputs has an observer.
  pub disconnect_module-IsDetached :
      (m : ℕ) (w : World)
      → IsValid w
      → (v : World) × (disconnect_module m w ≡ some v)
        × (IsDetached m v × Frees w v × Emptied m (get_output_count m w) 0 v)
  unfolding disconnect_module
  disconnect_module-IsDetached m w h =
      let u = forget_inputs m (get_input_count m w) 0 w in
      let f = forget_inputs-Frees m (get_input_count m w) 0 w in
      let (v, ends, (d, f', e)) =
        free_outputs-Emptied m (get_output_count m u) 0 u (forget_inputs-IsDetached m w h) in
      (
        v,
        ends,
        (d, Frees-trans f f', subst (λ k. Emptied m k 0 v) (ap length (f.same_outputs m)) e),
      )

  count-erase_le : (m o : ℕ) (ms : List ℕ) → count o (erase m ms) ≤ count o ms
  unfolding count erase
  count-erase_le m o [] = omega arith
  count-erase_le m o (x ∷ ms) = ground (arith, count-erase_le m o ms)

  -- Deleting a detached module that stands in the pipeline makes the objects well formed again.
  pub delete-IsValid :
      (m : ℕ) (w : World)
      → 0 < count m w.elements
      → IsDetached m w
      → IsValid (delete_module m (remove_element m w))
  unfolding delete_module stop remove_element
  delete-IsValid m w there d = record {
    linked = record {
      counted = λ o s. unfold ports_on in ground (arith, d.counted o s, d.unobserving s);
    };
    sound = record {
      fresh_module = λ o s k. unfold ports_on in ground (arith, d.sound.fresh_module o s k);
      fresh_stream = d.sound.fresh_stream;
      outputs_old = λ o n s e. unfold find in ground (arith, d.sound.outputs_old o n s);
      elements_old = λ o k. ground (arith, count-erase_le m o w.elements, d.sound.elements_old o);
      numbered = λ o. ground (arith, d.sound.numbered o);
      classes = d.sound.classes;
      once = λ o.
          unfold count in
          ground (
            arith,
            d.sound.once o,
            there,
            count-erase_self m w.elements,
            count-erase_ne o m w.elements,
          );
      freed_old =
          λ o k. unfold count in ground (arith, d.sound.freed_old o, d.sound.elements_old m there);
    };
  }
