-- ===== src/Valid/Create/Outputs.antt =====
-- The outputs that the constructor of a module class adds keep the daemon's objects well formed: each
-- is `declareOutput` of src/moModule.cpp with a new stream.
use movid.Base.{ℕ, suc, ◌<◌, ◌≡◌, ◌∙◌, refl, Text, ℤ, some, List, [], ◌∷◌, arith}
use movid.Base.Dict.{Dict, find, insert, find-insert, text_key, int_key}
use movid.Float.{Floats}
use movid.World.{Info, Port, World, write_module, write_stream}
use movid.DataStream.{new_stream}
use movid.Module.Ports.{stream_of}
use movid.Module.Links.{count}
use movid.Factory.{add_outputs}
use movid.Valid.{IsValid}

module _ ⦃F : Floats⦄ where
  -- One more output, on a stream of its own.
  abbrev give_output : ℕ → ℤ → Info → Text → World → World
  give_output m n info format w =
      let s = w.next_stream in
      let port : Port = record { stream = some s; info = info } in
      write_module m (record (w.modules m) { outputs = insert n port (w.modules m).outputs })
        (write_stream s (new_stream format) (record w { next_stream = suc s }))

  find-insert_old :
      (bound : ℕ) (n k : ℤ) (p : Port) (ps : Dict ℤ Port) (s : ℕ)
      → p.stream ≡ some bound
      → ((t : ℕ) → stream_of (find k ps) ≡ some t → t < bound)
      → stream_of (find k (insert n p ps)) ≡ some s
      → s < suc bound
  find-insert_old bound n k p ps s e h q = ground (arith, find-insert n k p ps, h s)

  give_output-IsValid :
      (m : ℕ) (n : ℤ) (info : Info) (format : Text) (w : World)
      → IsValid w
      → IsValid (give_output m n info format w)
  give_output-IsValid m n info format w h = record {
    linked = record {
      counted = λ o s.
          unfold count in ground (arith, h.linked.counted o s, h.sound.fresh_stream w.next_stream);
    };
    sound = record {
      fresh_module = λ o s k. ground (arith, h.sound.fresh_module o s k);
      fresh_stream = λ s k. ground (arith, h.sound.fresh_stream s);
      outputs_old = λ o k s e. ground (
        arith,
        find-insert_old w.next_stream n k (record { stream = some w.next_stream; info = info })
            (w.modules m).outputs s refl (h.sound.outputs_old m k),
        h.sound.outputs_old o k s,
      );
      elements_old = h.sound.elements_old;
      numbered = λ o. ground (arith, h.sound.numbered o);
      classes = h.sound.classes;
      once = h.sound.once;
      freed_old = h.sound.freed_old;
    };
  }

  pub add_outputs-IsValid :
      (m : ℕ) (outs : List (ℤ × Info × Text)) (w : World)
      → IsValid w
      → IsValid (add_outputs m outs w)
  unfolding add_outputs
  add_outputs-IsValid m [] w h = h
  add_outputs-IsValid m ((n, info, format) ∷ outs) w h =
      add_outputs-IsValid m outs _ (give_output-IsValid m n info format w h)

  pub next-add_outputs :
      (m : ℕ) (outs : List (ℤ × Info × Text)) (w : World)
      → ((add_outputs m outs w).next_module ≡ w.next_module)
        × ((add_outputs m outs w).elements ≡ w.elements)
        × ((add_outputs m outs w).database ≡ w.database)
        × ((add_outputs m outs w).freed ≡ w.freed)
  unfolding add_outputs
  next-add_outputs m [] w = (refl, refl, refl, refl)
  next-add_outputs m ((n, info, format) ∷ outs) w = next-add_outputs m outs _

  pub inputs-add_outputs :
      (m : ℕ) (outs : List (ℤ × Info × Text)) (w : World)
      → ((add_outputs m outs w).modules m).inputs ≡ (w.modules m).inputs
  unfolding add_outputs
  inputs-add_outputs m [] w = refl
  inputs-add_outputs m ((n, info, format) ∷ outs) w =
      inputs-add_outputs m outs (give_output m n info format w) ∙ ground arith
