-- ===== src/Web/Disconnect/Inputs.antt =====
-- `web_pipeline_remove` of src/movid.cpp: the loop that takes a module off the streams of its
-- inputs.
use movid.Base.{
  ℕ, zero, suc, ◌≤◌, ◌≡◌, ◌≢◌, refl, ap, ◌∙◌, inl, inr, ℤ, pos, none, some, [], ◌∷◌, arith,
  Option-cases, length,
}
use movid.Base.Dict.{Dict, find, int_key}
use movid.Float.{Floats}
use movid.World.{Port, World}
use movid.DataStream.{erase, remove_observer}
use movid.Module.Ports.{stream_of, get_input, get_input_count}
use movid.Module.Links.{count, count-erase_ne, count-erase_self, ports_on}
use movid.Valid.{Numbered, IsSound, IsValid}
use movid.Valid.Ports.{find_head, find_tail, remove_observer-IsSound}
use movid.Valid.Remove.{IsDetached, Frees, Frees-refl, Frees-trans}
use movid.Web.{forget_inputs}

module _ ⦃F : Floats⦄ where
  -- Only the inputs `ps` of `m` are still observed.
  record Forgetting (m : ℕ) (ps : Dict ℤ Port) (w : World) : Type 0 where
    others : (o s : ℕ) → o ≢ m → count o (w.streams s).observers ≡ ports_on s (w.modules o).inputs
    left : (s : ℕ) → count m (w.streams s).observers ≡ ports_on s ps
    sound : IsSound w

  -- The next input holds no stream.
  skip-Forgetting :
      (m : ℕ) (n : ℤ) (p : Port) (ps : Dict ℤ Port) (w : World)
      → p.stream ≡ none
      → Forgetting m ((n, p) ∷ ps) w
      → Forgetting m ps w
  skip-Forgetting m n p ps w e h = record {
    others = h.others;
    left = λ s. unfold ports_on in ground (arith, h.left s);
    sound = h.sound;
  }

  drop-Forgetting :
      (m t : ℕ) (n : ℤ) (p : Port) (ps : Dict ℤ Port) (w : World)
      → p.stream ≡ some t
      → Forgetting m ((n, p) ∷ ps) w
      → Forgetting m ps (remove_observer t m w)
  drop-Forgetting m t n p ps w e h = record {
    others = λ o s ne.
        unfold remove_observer in
        ground (arith, h.others o s ne, count-erase_ne o m (w.streams t).observers);
    left = λ s.
        unfold remove_observer ports_on in
        ground (arith, h.left s, h.left t, count-erase_self m (w.streams t).observers);
    sound = remove_observer-IsSound t m w h.sound;
  }

  -- The inputs from `i` on are those of the rest.
  abbrev Rest : ℕ → ℕ → Dict ℤ Port → World → Type 0
  Rest m i ps w = (j : ℕ) → i ≤ j → get_input m (pos j) w ≡ stream_of (find (pos j) ps)

  tail-Rest :
      (m i : ℕ) (n : ℤ) (p : Port) (ps : Dict ℤ Port) (w : World)
      → n ≡ pos i
      → Rest m i ((n, p) ∷ ps) w
      → Rest m (suc i) ps w
  tail-Rest m i n p ps w e r j k =
      r j (omega arith) ∙ ap stream_of (find_tail n i j p ps e (omega arith))

  forget_inputs-none :
      (m k i : ℕ) (w : World)
      → get_input m (pos i) w ≡ none
      → forget_inputs m (suc k) i w ≡ forget_inputs m k (suc i) w
  unfolding forget_inputs
  forget_inputs-none m k i w e = rw (e, forget_inputs)

  forget_inputs-some :
      (m k i s : ℕ) (w : World)
      → get_input m (pos i) w ≡ some s
      → forget_inputs m (suc k) i w ≡ forget_inputs m k (suc i) (remove_observer s m w)
  unfolding forget_inputs
  forget_inputs-some m k i s w e = rw (e, forget_inputs)

  forget_inputs-Forgetting :
      (m i : ℕ) (ps : Dict ℤ Port) (w : World)
      → Numbered i ps
      → Rest m i ps w
      → Forgetting m ps w
      → Forgetting m [] (forget_inputs m (length ps) i w)
  forget_inputs-Forgetting m i [] w num r h = unfold forget_inputs in h
  forget_inputs-Forgetting m i ((n, p) ∷ ps) w num r h =
      let here : get_input m (pos i) w ≡ p.stream =
        r i (omega arith) ∙ ap stream_of (find_head n i p ps num.0) in
      let rest = tail-Rest m i n p ps w num.0 r in
      elim (Option-cases p.stream) [
        | inl e ↦
            rw (forget_inputs-none m (length ps) i w (here ∙ e))
              (forget_inputs-Forgetting m (suc i) ps w num.1 rest (skip-Forgetting m n p ps w e h))
        | inr (t, e) ↦ rw (forget_inputs-some m (length ps) i t w (here ∙ e)) (
            forget_inputs-Forgetting m (suc i) ps (remove_observer t m w) num.1
              (unfold remove_observer in rest) (drop-Forgetting m t n p ps w e h))
      ]

  remove_observer-Frees : (s m : ℕ) (w : World) → Frees w (remove_observer s m w)
  unfolding remove_observer erase
  remove_observer-Frees s m w = record {
    same_elements = refl;
    same_outputs = λ o. refl;
    stay_empty = λ t h. ground arith;
  }

  pub forget_inputs-Frees : (m k i : ℕ) (w : World) → Frees w (forget_inputs m k i w)
  forget_inputs-Frees m zero i w = unfold forget_inputs in Frees-refl w
  forget_inputs-Frees m (suc k) i w = elim (Option-cases (get_input m (pos i) w)) [
    | inl e ↦ rw (forget_inputs-none m k i w e) (forget_inputs-Frees m k (suc i) w)
    | inr (s, e) ↦ rw (forget_inputs-some m k i s w e) (
        Frees-trans (remove_observer-Frees s m w)
          (forget_inputs-Frees m k (suc i) (remove_observer s m w)))
  ]

  pub forget_inputs-IsDetached :
      (m : ℕ) (w : World) → IsValid w → IsDetached m (forget_inputs m (get_input_count m w) 0 w)
  forget_inputs-IsDetached m w h =
      let gone =
        forget_inputs-Forgetting m 0 (w.modules m).inputs w (h.sound.numbered m) (λ j k. refl)
          (record {
            others = λ o s ne. h.linked.counted o s;
            left = h.linked.counted m;
            sound = h.sound;
          }) in
      record {
        counted = gone.others;
        unobserving = λ s. gone.left s ∙ unfold ports_on in refl;
        sound = gone.sound;
      }
