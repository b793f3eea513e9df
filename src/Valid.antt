-- ===== src/Valid.antt =====
-- The well-formedness of the daemon's objects (src/moModule.cpp, src/moDataStream.cpp,
-- src/moPipeline.cpp) and the operations that do not touch it.
pub mod Ports
pub mod Create
pub mod Parse
pub mod Quiet
pub mod Calls
pub mod Remove
use movid.Base.{
  ℕ, zero, suc, ◌+◌, ◌<◌, ◌≤◌, ◌≡◌, refl, ap, sym, ◌∙◌, Text, ℤ, pos, Bool, true, false, Option,
  none, some, List, [], ◌∷◌, ◌==◌, if◌then◌else◌, arith, length,
}
use movid.Base.Dict.{Dict, find, int_key, text_key}
use movid.Float.{Floats}
use movid.World.{Port, Stream, Module, ModuleClass, World, write_module}
use movid.Factory.{input_ports}
use movid.Module.Ports.{get_output, set_error}
use movid.Module.Links.{count, ports_on, IsLinked}

-- The inputs are numbered from `i` on.
abbrev pub Numbered : ℕ → Dict ℤ Port → Type 0
Numbered i [] = Unit
Numbered i ((n, p) ∷ ps) = (n ≡ pos i) × Numbered (suc i) ps

module _ ⦃F : Floats⦄ where
  -- What is not allocated yet is in use nowhere, outputs hold streams and the pipeline holds modules
  -- that are allocated and not deleted, and inputs are numbered from 0, also those that a class
  -- declares.
  pub record IsSound (w : World) : Type 0 where
    pub fresh_module : (m s : ℕ) → w.next_module ≤ m → ports_on s (w.modules m).inputs ≡ 0
    pub fresh_stream : (s : ℕ) → w.next_stream ≤ s → (w.streams s).observers ≡ []
    pub outputs_old : (m : ℕ) (n : ℤ) (s : ℕ) → get_output m n w ≡ some s → s < w.next_stream
    pub elements_old : (m : ℕ) → 0 < count m w.elements → m < w.next_module
    pub numbered : (m : ℕ) → Numbered 0 (w.modules m).inputs
    pub classes :
        (name : Text) (class : ModuleClass)
        → find name w.database ≡ some class
        → Numbered 0 (input_ports class.class_inputs [])
    -- A module stands in the pipeline once, or it is deleted once, and never both.
    pub once : (m : ℕ) → count m w.elements + count m w.freed ≤ 1
    pub freed_old : (m : ℕ) → 0 < count m w.freed → m < w.next_module

  -- Observers and inputs agree too.
  pub record IsValid (w : World) : Type 0 where
    pub linked : IsLinked w
    pub sound : IsSound w

  -- Ports, observers and the elements of the pipeline stay, and nothing is allocated or deleted.
  pub record IsQuiet (w v : World) : Type 0 where
    pub same_inputs : (m : ℕ) → (v.modules m).inputs ≡ (w.modules m).inputs
    pub same_outputs : (m : ℕ) → (v.modules m).outputs ≡ (w.modules m).outputs
    pub same_observers : (s : ℕ) → (v.streams s).observers ≡ (w.streams s).observers
    pub same_next_module : v.next_module ≡ w.next_module
    pub same_next_stream : v.next_stream ≡ w.next_stream
    pub same_elements : v.elements ≡ w.elements
    pub same_database : v.database ≡ w.database
    pub same_freed : v.freed ≡ w.freed

  pub IsQuiet-IsSound : {w v : World} → IsQuiet w v → IsSound w → IsSound v
  IsQuiet-IsSound {w} {v} q h = record {
    fresh_module = λ m s k. ground (arith, q.same_inputs m, q.same_next_module, h.fresh_module m s);
    fresh_stream = λ s k. ground (arith, q.same_observers s, q.same_next_stream, h.fresh_stream s);
    outputs_old =
        λ m n s k. ground (arith, q.same_outputs m, q.same_next_stream, h.outputs_old m n s);
    elements_old = λ m k. ground (arith, q.same_elements, q.same_next_module, h.elements_old m);
    numbered = λ m. rw (q.same_inputs m) (h.numbered m);
    classes = λ name class e. h.classes name class (ap (find name) (sym q.same_database) ∙ e);
    once = λ m. ground (arith, q.same_elements, q.same_freed, h.once m);
    freed_old = λ m k. ground (arith, q.same_freed, q.same_next_module, h.freed_old m);
  }

  pub IsQuiet-IsValid : {w v : World} → IsQuiet w v → IsValid w → IsValid v
  IsQuiet-IsValid {w} {v} q h = record {
    linked = record {
      counted = λ m s. ground (arith, q.same_inputs m, q.same_observers s, h.linked.counted m s);
    };
    sound = IsQuiet-IsSound q h.sound;
  }

  -- Only the rest of the world differs.
  pub same-IsQuiet :
      {w v : World}
      → v.modules ≡ w.modules
      → v.streams ≡ w.streams
      → v.next_module ≡ w.next_module
      → v.next_stream ≡ w.next_stream
      → v.elements ≡ w.elements
      → v.database ≡ w.database
      → v.freed ≡ w.freed
      → IsQuiet w v
  same-IsQuiet a b c d e f g = record {
    same_inputs = λ m. ap (λ (h : ℕ → Module). (h m).inputs) a;
    same_outputs = λ m. ap (λ (h : ℕ → Module). (h m).outputs) a;
    same_observers = λ s. ap (λ (h : ℕ → Stream). (h s).observers) b;
    same_next_module = c;
    same_next_stream = d;
    same_elements = e;
    same_database = f;
    same_freed = g;
  }

  pub IsQuiet-refl : (w : World) → IsQuiet w w
  IsQuiet-refl w = record {
    same_inputs = λ m. refl;
    same_outputs = λ m. refl;
    same_observers = λ s. refl;
    same_next_module = refl;
    same_next_stream = refl;
    same_elements = refl;
    same_database = refl;
    same_freed = refl;
  }

  pub IsQuiet-trans : {u v w : World} → IsQuiet u v → IsQuiet v w → IsQuiet u w
  IsQuiet-trans a b = record {
    same_inputs = λ m. b.same_inputs m ∙ a.same_inputs m;
    same_outputs = λ m. b.same_outputs m ∙ a.same_outputs m;
    same_observers = λ m. b.same_observers m ∙ a.same_observers m;
    same_next_module = b.same_next_module ∙ a.same_next_module;
    same_next_stream = b.same_next_stream ∙ a.same_next_stream;
    same_elements = b.same_elements ∙ a.same_elements;
    same_database = b.same_database ∙ a.same_database;
    same_freed = b.same_freed ∙ a.same_freed;
  }

  pub write_module-IsQuiet :
      (m : ℕ) (v : Module) (w : World)
      → v.inputs ≡ (w.modules m).inputs
      → v.outputs ≡ (w.modules m).outputs
      → IsQuiet w (write_module m v w)
  write_module-IsQuiet m v w a b = record {
    same_inputs = λ o. ground arith;
    same_outputs = λ o. ground arith;
    same_observers = λ s. refl;
    same_next_module = refl;
    same_next_stream = refl;
    same_elements = refl;
    same_database = refl;
    same_freed = refl;
  }
