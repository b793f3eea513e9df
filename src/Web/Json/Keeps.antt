-- ===== src/Web/Json/Keeps.antt =====
-- The handlers of src/movid.cpp that reply with a tree of cJSON keep the daemon's objects well formed:
-- two ask for properties, which may create them, and two make modules and delete them again.
use movid.Base.{
  ℕ, zero, suc, ◌≡◌, refl, ap, ◌<◌, subst, inl, inr, Text, Option, none, some, List, [], ◌∷◌, codes,
  pos, ◌⊎◌, arith, Option-cases,
}
use movid.Base.Dict.{find, int_key}
use movid.Float.{Floats}
use movid.Utils.{bind_some, some_inj}
use movid.World.{World}
use movid.Module.Ports.{get_input_count, get_output_count}
use movid.Module.Links.{count, ports_on}
use movid.Module.Properties.{touch}
use movid.Module.Lifecycle.{stop}
use movid.Factory.{create, list_modules}
use movid.Pipeline.{delete_module}
use movid.Web.{Http, Reply, web_error}
use movid.Web.Json.{
  Json, Members, Items, stats_of, observer_members, observers_of, port_items, used, no_members,
  output_items, module_status, modules_status, web_pipeline_stats, web_pipeline_status,
}
use movid.Web.Json.Classes.{
  plain_ports, details, describe_members, described, web_factory_list, web_factory_describe,
}
use movid.Web.Json.Reads.{Reads, Reads-refl, Reads-trans, touch-Reads, observer_members-Reads}
use movid.Valid.{IsValid, IsQuiet-IsValid}
use movid.Valid.Create.{IsUnlisted, create-Created, create-unplugged}

module _ ⦃F : Floats⦄ where
  -- The world that a chain of calls returns.
  returned :
      {A : Type 0} (P : World → Type 0) {a : A × World} (r : A × World)
      → some a ≡ some r
      → P a.1
      → P r.1
  returned P {a} r h p = subst P (ap (λ x. x.1) (some_inj a r h)) p

  -- A module that holds no stream and stands in no list can be deleted.
  delete_unplugged :
      (m : ℕ) (w : World)
      → ((s : ℕ) → ports_on s (w.modules m).inputs ≡ 0)
      → m < w.next_module
      → IsUnlisted m w
      → IsValid w
      → IsValid (delete_module m w)
  unfolding delete_module stop ports_on
  delete_unplugged m w free old new h = record {
    linked = record { counted = λ o s. ground (arith, h.linked.counted o s, free s) };
    sound = record {
      fresh_module = λ o s k. ground (arith, h.sound.fresh_module o s k);
      fresh_stream = h.sound.fresh_stream;
      outputs_old = λ o n s e. unfold find in ground (arith, h.sound.outputs_old o n s);
      elements_old = h.sound.elements_old;
      numbered = λ o. ground (arith, h.sound.numbered o);
      classes = h.sound.classes;
      once = λ o. unfold count in ground (arith, h.sound.once o, new);
      freed_old = λ o k. unfold count in ground (arith, h.sound.freed_old o, old);
    };
  }

  -- A module that is made and deleted again.
  made_and_deleted :
      (name : Text) (w : World) (made : ℕ × World)
      → IsValid w
      → create name w ≡ some made
      → IsValid (delete_module made.0 made.1)
  made_and_deleted name w made h e =
      delete_unplugged made.0 made.1 (λ s. create-unplugged name w made s e)
        (create-Created name w made h e).1 (create-Created name w made h e).3
        (create-Created name w made h e).0

  stats_of-Reads : (ms : List ℕ) (w : World) → Reads w (stats_of ms w).1
  unfolding stats_of
  stats_of-Reads [] w = Reads-refl w
  stats_of-Reads (m ∷ ms) w =
      Reads-trans (touch-Reads m w) (stats_of-Reads ms (touch m (codes "id") w))

  output_items-Reads :
      (m k i : ℕ) (w : World) (r : Items × World) → output_items m k i w ≡ some r → Reads w r.1
  unfolding output_items
  output_items-Reads m zero i w r h = returned (Reads w) r h (Reads-refl w)
  output_items-Reads m (suc k) i w r h =
      let (p, e, h1) = bind_some (find (pos i) (w.modules m).outputs) _ r h in
      let seen = observer_members (observers_of p.stream w) 0 w in
      let (rest, f, h2) = bind_some (output_items m k (suc i) seen.1) _ r h1 in
      returned (Reads w) r h2 (
        Reads-trans (observer_members-Reads (observers_of p.stream w) 0 w)
          (output_items-Reads m k (suc i) seen.1 rest f))

  module_status-Reads :
      (description author : Text → Text) (m : ℕ) (w : World) (r : Json × World)
      → module_status description author m w ≡ some r
      → Reads w r.1
  unfolding module_status
  module_status-Reads description author m w r h =
      let (ins, e, h1) =
        bind_some (port_items (λ p. used p no_members) (w.modules m).inputs (get_input_count m w) 0)
          _ r h in
      let (outs, f, h2) = bind_some (output_items m (get_output_count m w) 0 w) _ r h1 in
      returned (Reads w) r h2 (output_items-Reads m (get_output_count m w) 0 w outs f)

  details-IsValid :
      (description author : Text → Text) (names : List Text) (w : World) (r : Members × World)
      → IsValid w
      → details description author names w ≡ some r
      → IsValid r.1
  unfolding details
  details-IsValid description author [] w r v h = returned IsValid r h v
  details-IsValid description author (name ∷ names) w r v h =
      let (made, e, h1) = bind_some (create name w) _ r h in
      let (ports, f, h2) = bind_some (plain_ports made.0 made.1) _ r h1 in
      let (rest, g, h3) =
        bind_some (details description author names (delete_module made.0 made.1)) _ r h2 in
      returned IsValid r h3 (
        details-IsValid description author names (delete_module made.0 made.1) rest
          (made_and_deleted name w made v e) g)

  modules_status-Reads :
      (description author : Text → Text) (ms : List ℕ) (w : World) (r : Members × World)
      → modules_status description author ms w ≡ some r
      → Reads w r.1
  unfolding modules_status
  modules_status-Reads description author [] w r h = returned (Reads w) r h (Reads-refl w)
  modules_status-Reads description author (m ∷ ms) w r h =
      let (one, e, h1) =
        bind_some (module_status description author m (touch m (codes "id") w)) _ r h in
      let (rest, f, h2) = bind_some (modules_status description author ms one.1) _ r h1 in
      returned (Reads w) r h2 (
        Reads-trans (touch-Reads m w) (
          Reads-trans (module_status-Reads description author m (touch m (codes "id") w) one e)
            (modules_status-Reads description author ms one.1 rest f)))

  pub web_pipeline_stats-IsValid : (w : World) → IsValid w → IsValid (web_pipeline_stats w).1
  unfolding web_pipeline_stats
  web_pipeline_stats-IsValid w v = IsQuiet-IsValid (stats_of-Reads w.elements w).quiet v

  pub web_pipeline_status-IsValid :
      (description author : Text → Text) (w : World) (r : Json × World)
      → IsValid w
      → web_pipeline_status description author w ≡ some r
      → IsValid r.1
  unfolding web_pipeline_status
  web_pipeline_status-IsValid description author w r v h =
      let (status, e, h1) = bind_some (modules_status description author w.elements w) _ r h in
      returned IsValid r h1
        (IsQuiet-IsValid (modules_status-Reads description author w.elements w status e).quiet v)

  pub web_factory_list-IsValid :
      (description author : Text → Text) (w : World) (r : Json × World)
      → IsValid w
      → web_factory_list description author w ≡ some r
      → IsValid r.1
  unfolding web_factory_list
  web_factory_list-IsValid description author w r v h =
      let (all, e, h1) = bind_some (details description author (list_modules w) w) _ r h in
      returned IsValid r h1 (details-IsValid description author (list_modules w) w all v e)

module _ ⦃F : Floats⦄ ⦃H : Http⦄ where
  described-IsValid :
      (description author : Text → Text) (name : Text) (w : World) (made : Option (ℕ × World))
      (r : (Reply ⊎ Json) × World)
      → IsValid w
      → create name w ≡ made
      → described description author made w ≡ some r
      → IsValid r.1
  unfolding described
  described-IsValid description author name w none r v e h = returned IsValid r h v
  described-IsValid description author name w (some made) r v e h =
      let (body, f, h1) = bind_some (describe_members description author made.0 made.1) _ r h in
      returned IsValid r h1 (made_and_deleted name w made v e)

  pub web_factory_describe-IsValid :
      (description author : Text → Text) (uri : Option Text) (w : World)
      (r : (Reply ⊎ Json) × World)
      → IsValid w
      → web_factory_describe description author uri w ≡ some r
      → IsValid r.1
  unfolding web_factory_describe
  web_factory_describe-IsValid description author none w r v h = cc
  web_factory_describe-IsValid description author (some uri) w r v h =
      elim (Option-cases (H.find_header (codes "name") (H.parse_query uri))) [
        | inl e ↦
            returned IsValid {a = (inl (web_error (codes "missing name")), w)} r
              (rw (e, web_factory_describe) at h) v
        | inr (name, e) ↦
            described-IsValid description author name w (create name w) r v refl
              (rw (e, web_factory_describe) at h)
      ]
