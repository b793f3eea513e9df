-- ===== src/Valid/Quiet.antt =====
-- The operations of src/moModule.cpp and src/moPipeline.cpp that leave every connection alone:
-- properties, errors, starting, stopping and polling.
use movid.Base.{
  ℕ, ◌≡◌, ◌≢◌, refl, subst, inl, inr, Text, Bool, true, false, Option, none, some, List, [], ◌∷◌,
  ◌==◌, if◌then◌else◌, Bool-cases, Option-cases, null, codes,
}
use movid.Base.Dict.{Dict, find, text_key}
use movid.Float.{Floats}
use movid.Utils.{tokenize, ◌>>=◌}
use movid.Property.{Property, Value, bool, string, integer, double, pointlist, set, as_string}
use movid.Property.Setting.{IsPointsIntoDouble, set-eq-none_iff}
use movid.World.{own_start, own_stop, own_poll, Stats, Event, callback, update, World, emit, tick}
use movid.Module.Properties.{
  touch, property, write_property, dispatch_feedback, module_gui_feedback_cb, fire_callbacks,
  set_property, set_property_text, set_property_read_only, get_last_error, gui_feedback_cb,
}
use movid.Module.Lifecycle.{start, stop, poll, need_update, with_stats, stats_wait, stats_process}
use movid.Pipeline.{each, start_pipeline, stop_pipeline, poll_pipeline}
use movid.Valid.{IsQuiet, same-IsQuiet, IsQuiet-refl, IsQuiet-trans, write_module-IsQuiet}

module _ ⦃F : Floats⦄ where
  pub emit-IsQuiet : (e : Event) (w : World) → IsQuiet w (emit e w)
  emit-IsQuiet e w = same-IsQuiet refl refl refl refl refl refl refl

  tick-IsQuiet : (w : World) → IsQuiet w (tick w)
  tick-IsQuiet w = same-IsQuiet refl refl refl refl refl refl refl

  pub touch-IsQuiet : (m : ℕ) (key : Text) (w : World) → IsQuiet w (touch m key w)
  unfolding touch
  touch-IsQuiet m key w = elim (Option-cases (find key (w.modules m).properties)) [
    | inl e ↦ rw (e, touch) (write_module-IsQuiet m _ w refl refl)
    | inr (p, e) ↦ rw (e, touch) (IsQuiet-refl w)
  ]

  pub write_property-IsQuiet :
      (m : ℕ) (key : Text) (p : Property) (w : World) → IsQuiet w (write_property m key p w)
  unfolding write_property
  write_property-IsQuiet m key p w = write_module-IsQuiet m _ w refl refl

  dispatch-IsQuiet :
      (m : ℕ) (o : Option (List Text)) (w : World) → IsQuiet w (dispatch_feedback m o w)
  unfolding dispatch_feedback
  dispatch-IsQuiet m none w = IsQuiet-refl w
  dispatch-IsQuiet m (some []) w = IsQuiet-refl w
  dispatch-IsQuiet m (some (a ∷ [])) w = IsQuiet-refl w
  dispatch-IsQuiet m (some (a ∷ b ∷ [])) w = IsQuiet-refl w
  dispatch-IsQuiet m (some (a ∷ b ∷ c ∷ [])) w = emit-IsQuiet _ w
  dispatch-IsQuiet m (some (a ∷ b ∷ c ∷ d ∷ ws)) w = IsQuiet-refl w

  feedback-IsQuiet : (p : Property) (m : ℕ) (w : World) → IsQuiet w (module_gui_feedback_cb p m w)
  unfolding module_gui_feedback_cb
  feedback-IsQuiet p m w = elim (Bool-cases (null (as_string p))) [
    | inl e ↦ rw e (IsQuiet-refl w)
    | inr e ↦ rw e (dispatch-IsQuiet m (tokenize (as_string p) (codes ";")) w)
  ]

  callback-IsQuiet :
      (cb m : ℕ) (p : Property) (w : World)
      → IsQuiet w
          (if cb == gui_feedback_cb then module_gui_feedback_cb p m w else emit (callback cb m) w)
  callback-IsQuiet cb m p w = elim (Bool-cases (cb == gui_feedback_cb)) [
    | inl e ↦ rw e (feedback-IsQuiet p m w)
    | inr e ↦ rw e (emit-IsQuiet (callback cb m) w)
  ]

  pub fire_callbacks-IsQuiet :
      (p : Property) (calls : Dict ℕ ℕ) (w : World) → IsQuiet w (fire_callbacks p calls w)
  unfolding fire_callbacks
  fire_callbacks-IsQuiet p [] w = IsQuiet-refl w
  fire_callbacks-IsQuiet p ((cb, m) ∷ calls) w =
      IsQuiet-trans (callback-IsQuiet cb m p w) (fire_callbacks-IsQuiet p calls _)

  set_lem :
      (m : ℕ) (key : Text) (w v : World) (o : Option (Property × Dict ℕ ℕ))
      → (do (p, calls) ← o; some (fire_callbacks p calls (write_property m key p w))) ≡ some v
      → IsQuiet w v
  set_lem m key w v none h = cc
  set_lem m key w v (some (p, calls)) h =
      let same : fire_callbacks p calls (write_property m key p w) ≡ v = cc in
      subst (IsQuiet w) same
        (IsQuiet-trans (write_property-IsQuiet m key p w) (fire_callbacks-IsQuiet p calls _))

  pub set_property-IsQuiet :
      (m : ℕ) (key value : Text) (w v : World) → set_property m key value w ≡ some v → IsQuiet w v
  unfolding set_property
  set_property-IsQuiet m key value w v h =
      IsQuiet-trans (touch-IsQuiet m key w)
        (set_lem m key (touch m key w) v (set (string value) (property m key (touch m key w))) h)

  pub get_last_error-IsQuiet : (m : ℕ) (w : World) → IsQuiet w ((get_last_error m w).1)
  unfolding get_last_error
  get_last_error-IsQuiet m w =
      IsQuiet-trans (write_module-IsQuiet m _ w refl refl) (touch-IsQuiet m (codes "id") _)

  pub stop-IsQuiet : (m : ℕ) (w : World) → IsQuiet w (stop m w)
  unfolding stop
  stop-IsQuiet m w =
      IsQuiet-trans (write_module-IsQuiet m _ w refl refl) (emit-IsQuiet (own_stop m) _)

  pub start-IsQuiet : (m : ℕ) (w : World) → IsQuiet w (start m w)
  unfolding start
  start-IsQuiet m w = IsQuiet-trans (touch-IsQuiet m _ w) (
      IsQuiet-trans (tick-IsQuiet _)
        (IsQuiet-trans (write_module-IsQuiet m _ _ refl refl) (emit-IsQuiet (own_start m) _)))

  pub each-IsQuiet :
      (f : ℕ → World → World)
      → ((m : ℕ) (w : World) → IsQuiet w (f m w))
      → (ms : List ℕ) (w : World) → IsQuiet w (each f ms w)
  unfolding each
  each-IsQuiet f h [] w = IsQuiet-refl w
  each-IsQuiet f h (m ∷ ms) w = IsQuiet-trans (h m w) (each-IsQuiet f h ms (f m w))

  pub stop_pipeline-IsQuiet : (w : World) → IsQuiet w (stop_pipeline w)
  unfolding stop_pipeline
  stop_pipeline-IsQuiet w =
      IsQuiet-trans (stop-IsQuiet w.pipeline w) (each-IsQuiet stop stop-IsQuiet w.elements _)

  no_points : (v : Value) (s : Text) → IsPointsIntoDouble v (string s) → ⊥
  no_points (bool b) s h = h
  no_points (string b) s h = h
  no_points (integer b) s h = h
  no_points (double b) s h = h
  no_points (pointlist b) s h = h

  then_none :
      (o : Option (Property × Dict ℕ ℕ)) (f : Property → Dict ℕ ℕ → World)
      → (do (p, calls) ← o; some (f p calls)) ≡ none
      → o ≡ none
  then_none none f h = refl
  then_none (some (p, calls)) f h = cc

  -- Setting a property to a text always returns: only a point list is refused.
  pub set_property_returns :
      (o : ℕ) (key value : Text) (w : World) → set_property o key value w ≢ none
  unfolding set_property
  set_property_returns o key value w e = no_points (property o key (touch o key w)).val value (
      ((set-eq-none_iff (string value) (property o key (touch o key w))).0
        (then_none (set (string value) (property o key (touch o key w))) _ e)).1)

  pub start_pipeline-IsQuiet : (w : World) → IsQuiet w (start_pipeline w)
  unfolding start_pipeline
  start_pipeline-IsQuiet w =
      IsQuiet-trans (start-IsQuiet w.pipeline w) (each-IsQuiet start start-IsQuiet w.elements _)

  with_stats-IsQuiet :
      (f : F.Double → Stats → Stats) (m : ℕ) (w : World) → IsQuiet w (with_stats f m w)
  with_stats-IsQuiet f m w =
      IsQuiet-trans (tick-IsQuiet w) (write_module-IsQuiet m _ (tick w) refl refl)

  need_update-IsQuiet : (m : ℕ) (w : World) → IsQuiet w ((need_update m w).1)
  unfolding need_update
  need_update-IsQuiet m w = elim (Bool-cases ((w.modules m).need_update)) [
    | inl e ↦ rw (e, need_update) (write_module-IsQuiet m _ w refl refl)
    | inr e ↦ rw (e, need_update) (IsQuiet-refl w)
  ]

  pub if-IsQuiet :
      {w u v : World} (b : Bool) → IsQuiet w u → IsQuiet w v → IsQuiet w (if b then u else v)
  if-IsQuiet true p q = p
  if-IsQuiet false p q = q

  updated-IsQuiet :
      (m : ℕ) (due : Bool) (w v : World)
      → IsQuiet w v
      → IsQuiet w (
          if due
          then with_stats stats_process m (emit (update m) (with_stats stats_wait m v))
          else v)
  updated-IsQuiet m false w v q = q
  updated-IsQuiet m true w v q = IsQuiet-trans q (
      IsQuiet-trans (with_stats-IsQuiet stats_wait m v)
        (IsQuiet-trans (emit-IsQuiet (update m) _) (with_stats-IsQuiet stats_process m _)))

  pub poll-IsQuiet : (m : ℕ) (w : World) → IsQuiet w (poll m w)
  unfolding poll
  poll-IsQuiet m w =
      let u = emit (own_poll m) w in
      IsQuiet-trans (emit-IsQuiet (own_poll m) w) (
        if-IsQuiet ((u.modules m).use_thread) (IsQuiet-refl u) (
          updated-IsQuiet m ((need_update m u).0) u ((need_update m u).1)
            (need_update-IsQuiet m u)))

  pub poll_pipeline-IsQuiet : (w : World) → IsQuiet w (poll_pipeline w)
  unfolding poll_pipeline
  poll_pipeline-IsQuiet w = each-IsQuiet poll poll-IsQuiet w.elements w

  pub set_property_text-IsQuiet :
      (m : ℕ) (key : Text) (w : World) → IsQuiet w (set_property_text m key w)
  unfolding set_property_text
  set_property_text-IsQuiet m key w =
      IsQuiet-trans (touch-IsQuiet m key w) (write_property-IsQuiet m key _ _)

  pub set_property_read_only-IsQuiet :
      (m : ℕ) (key : Text) (w : World) → IsQuiet w (set_property_read_only m key w)
  unfolding set_property_read_only
  set_property_read_only-IsQuiet m key w =
      IsQuiet-trans (touch-IsQuiet m key w) (write_property-IsQuiet m key _ _)
