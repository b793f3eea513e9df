-- ===== src/Web/Answers.antt =====
-- The answers of the handlers of src/movid.cpp: what holds of a reply and of the world after it,
-- through the tests with which every handler begins.
use movid.Base.{ℕ, ◌≡◌, refl, Text, Bool, true, false, Option, none, some, codes, if◌then◌else◌}
use movid.Float.{Floats}
use movid.World.{World}
use movid.Pipeline.{get_module_by_id}
use movid.Web.{
  Http, Reply, Handled, with_query, require, require_module, with_object, missing_objectname,
  object_not_found,
}

module _ ⦃F : Floats⦄ ⦃H : Http⦄ where
  open H use {Headers, find_header}

  -- The answer, if there is one, has the property.
  abbrev pub Answers : (Reply → World → Type 0) → Handled → Type 0
  Answers Q none = Unit
  Answers Q (some (r, v)) = Q r v

  pub with_query-Answers :
      (Q : Reply → World → Type 0) (uri : Option Text) (k : Headers → Handled)
      → ((h : Headers) → Answers Q (k h))
      → Answers Q (with_query uri k)
  with_query-Answers Q none k f = tt
  with_query-Answers Q (some uri) k f = f (H.parse_query uri)

  pub require-Answers :
      (Q : Reply → World → Type 0) (o : Option Text) (missing : Reply) (w : World)
      (k : Text → Handled)
      → Q missing w
      → ((v : Text) → Answers Q (k v))
      → Answers Q (require o missing w k)
  require-Answers Q none missing w k q f = q
  require-Answers Q (some v) missing w k q f = f v

  pub require_module-Answers :
      (Q : Reply → World → Type 0) (o : Option ℕ) (missing : Reply) (w : World) (k : ℕ → Handled)
      → Q missing w
      → ((m : ℕ) → o ≡ some m → Answers Q (k m))
      → Answers Q (require_module o missing w k)
  require_module-Answers Q none missing w k q f = q
  require_module-Answers Q (some m) missing w k q f = f m refl

  pub with_object-Answers :
      (Q : Reply → World → Type 0) (h : Headers) (w : World) (k : ℕ → Handled)
      → Q missing_objectname w
      → Q object_not_found w
      → ((id : Text) (m : ℕ) → get_module_by_id id w ≡ some m → Answers Q (k m))
      → Answers Q (with_object h w k)
  with_object-Answers Q h w k q r f =
      require-Answers Q (find_header (codes "objectname") h) missing_objectname w _ q
        λ id. require_module-Answers Q (get_module_by_id id w) object_not_found w k r (f id)

  pub if-Answers :
      (Q : Reply → World → Type 0) (b : Bool) (x y : Handled)
      → Answers Q x
      → Answers Q y
      → Answers Q (if b then x else y)
  if-Answers Q true x y h k = h
  if-Answers Q false x y h k = k
