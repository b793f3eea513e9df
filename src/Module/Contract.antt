-- ===== src/Module/Contract.antt =====
-- What `setInput` of src/moModule.cpp promises: which stream the input holds afterwards, and when the
-- module has an error.
use movid.Base.{
  ℕ, ◌≡◌, ◌≢◌, refl, ap, ap₂, ◌∙◌, inl, inr, Text, ℤ, Bool, true, Option, none, some, if◌then◌else◌,
  arith, Bool-cases, eq_ℤ_iff,
}
use movid.Base.Dict.{find, int_key, find-modify}
use movid.Float.{Floats}
use movid.World.{Info, Port, World}
use movid.DataStream.{is_stream_valid, add_observer, remove_observer}
use movid.Module.Ports.{
  stream_of, get_input, set_error, write_input, disconnect, check_input, set_input,
}
use movid.Module.Properties.{have_error}

module _ ⦃F : Floats⦄ where
  -- Whether the input accepts the stream, if there is one.
  abbrev pub accepts : Info → Option ℕ → World → Bool
  accepts info none w = true
  accepts info (some s) w = is_stream_valid info (w.streams s).format

  -- The input holds what it accepts, only the module itself changes, and it has an error exactly if
  -- it had one or refuses the stream.
  abbrev pub Connects : ℕ → ℤ → Info → Option ℕ → World → World → Type 0
  Connects m n info x w v =
      (get_input m n v ≡ (if accepts info x w then x else none))
      × (have_error m v ≡ (if accepts info x w then have_error m w else true))
      × ((o : ℕ) → o ≢ m → v.modules o ≡ w.modules o)
      × ((s : ℕ) → (v.streams s).format ≡ (w.streams s).format)

  found_written :
      (m : ℕ) (n : ℤ) (x : Option ℕ) (w : World) (p : Port)
      → find n (w.modules m).inputs ≡ some p
      → find n ((write_input m n x w).modules m).inputs ≡ some (record p { stream = x })
  unfolding write_input
  found_written m n x w p e = ground (
    arith,
    find-modify n n (λ (q : Port). record q { stream = x }) (w.modules m).inputs,
    eq_ℤ_iff n n,
  )

  written :
      (m : ℕ) (n : ℤ) (x : Option ℕ) (w : World) (p : Port)
      → find n (w.modules m).inputs ≡ some p
      → get_input m n (write_input m n x w) ≡ x
  written m n x w p e = ap stream_of (found_written m n x w p e)

  modules-disconnect : (x : Option ℕ) (m : ℕ) (w : World) → (disconnect x m w).modules ≡ w.modules
  unfolding remove_observer
  modules-disconnect none m w = refl
  modules-disconnect (some t) m w = refl

  refused_input :
      (m : ℕ) (n : ℤ) (s : ℕ) (w : World) (p : Port)
      → find n (w.modules m).inputs ≡ some p
      → (msg : Text) → get_input m n (write_input m n none (set_error m msg w)) ≡ none
  refused_input m n s w p e msg =
      written m n none (set_error m msg w) p (unfold set_error in ground arith)

  check_input-Connects :
      (m : ℕ) (n : ℤ) (info : Info) (x : Option ℕ) (w : World) (p : Port)
      → find n (w.modules m).inputs ≡ some p
      → p.stream ≡ x
      → Connects m n info x w (check_input m n info x w)
  unfolding check_input add_observer set_error write_input
  check_input-Connects m n info none w p e h = (ap stream_of e ∙ h, refl, λ o ne. refl, λ s. refl)
  check_input-Connects m n info (some s) w p e h =
      elim (Bool-cases (is_stream_valid info (w.streams s).format)) [
        | inl valid ↦ rw valid (ap stream_of e ∙ h, refl, λ o ne. refl, λ t. ground arith)
        | inr wrong ↦
            rw wrong (refused_input m n s w p e _, ground arith, λ o ne. ground arith, λ t. refl)
      ]

  -- The storage is written: errors, formats and other modules are as before.
  written_kept :
      (m : ℕ) (n : ℤ) (x y : Option ℕ) (w : World)
      → (have_error m (write_input m n x (disconnect y m w)) ≡ have_error m w)
        × ((o : ℕ) → o ≢ m → (write_input m n x (disconnect y m w)).modules o ≡ w.modules o)
        × ((s : ℕ)
            → ((write_input m n x (disconnect y m w)).streams s).format ≡ (w.streams s).format)
  unfolding write_input remove_observer
  written_kept m n x none w = (ground arith, λ o ne. ground arith, λ s. refl)
  written_kept m n x (some t) w = (ground arith, λ o ne. ground arith, λ s. ground arith)

  same_accepts :
      (info : Info) (x : Option ℕ) (u w : World)
      → ((s : ℕ) → (u.streams s).format ≡ (w.streams s).format)
      → accepts info x u ≡ accepts info x w
  same_accepts info none u w f = refl
  same_accepts info (some s) u w f = ap (is_stream_valid info) (f s)

  Connects-trans :
      (m : ℕ) (n : ℤ) (info : Info) (x y : Option ℕ) (w v : World)
      → Connects m n info x (write_input m n x (disconnect y m w)) v
      → Connects m n info x w v
  Connects-trans m n info x y w v h =
      let u = write_input m n x (disconnect y m w) in
      let kept = written_kept m n x y w in
      let same = same_accepts info x u w kept.2 in
      (
        h.0 ∙ ap (λ b. if b then x else none) same,
        h.1 ∙ ap₂ (λ b e. if b then e else true) same kept.0,
        λ o ne. h.2 o ne ∙ kept.1 o ne,
        λ s. h.3 s ∙ kept.2 s,
      )

  -- After `setInput` on an input that is there, the input holds the stream if it accepts its
  -- format, and none otherwise; the module has an error exactly if it had one or the stream was
  -- refused; and no other module and no format has changed.
  pub set_input-Connects :
      (m : ℕ) (n : ℤ) (x : Option ℕ) (w : World) (p : Port)
      → find n (w.modules m).inputs ≡ some p
      → Connects m n p.info x w (set_input m n x w)
  unfolding set_input
  set_input-Connects m n x w p e =
      let u = write_input m n x (disconnect p.stream m w) in
      let found =
        found_written m n x (disconnect p.stream m w) p (rw (modules-disconnect p.stream m w) e) in
      rw (e, set_input)
        (Connects-trans m n p.info x p.stream w (check_input m n p.info x u)
          (check_input-Connects m n p.info x u (record p { stream = x }) found refl))
