-- ===== src/Module/Disconnect.antt =====
-- `removeObservers` of src/moDataStream.cpp: the search for a connected input and the loop that
-- starts again after each change.
use movid.Base.{
  ℕ, zero, suc, ◌+◌, ◌<◌, ◌≤◌, ◌≡◌, ◌≢◌, ap, sym, ◌∙◌, inl, inr, ℤ, pos, true, false, Option, none,
  some, List, [], ◌∷◌, arith, Option-cases, length,
}
use movid.Base.Dict.{Dict, find, int_key}
use movid.Float.{Floats}
use movid.World.{Port, World, write_stream}
use movid.DataStream.{erase, remove_observer}
use movid.Module.Ports.{
  stream_of, same_stream, index_from, get_input, get_input_count, set_input, disconnect, connected,
  remove_observers_loop, remove_observers,
}
use movid.Module.Links.{count, ports_on_pos, IsLinked, set_input-IsLinked}

same_stream-some : (s : ℕ) (x : Option ℕ) → same_stream (some s) x ≡ true → x ≡ some s
same_stream-some s none h = cc
same_stream-some s (some t) h = ground arith

same_stream_self : (s : ℕ) (x : Option ℕ) → same_stream (some s) x ≡ false → x ≢ some s
same_stream_self s none h e = cc
same_stream_self s (some t) h e = ground arith

index_from-some :
    (ports : Dict ℤ Port) (ds : Option ℕ) (k i j : ℕ)
    → index_from ports ds k i ≡ some j
    → (same_stream ds (stream_of (find (pos j) ports)) ≡ true) × (i ≤ j) × (j < i + k)
unfolding index_from
index_from-some ports ds zero i j h = cc
index_from-some ports ds (suc k) i j h = ground (arith, index_from-some ports ds k (suc i) j)

index_from-none :
    (ports : Dict ℤ Port) (ds : Option ℕ) (k i j : ℕ)
    → index_from ports ds k i ≡ none
    → i ≤ j
    → j < i + k
    → same_stream ds (stream_of (find (pos j) ports)) ≡ false
unfolding index_from
index_from-none ports ds zero i j h a b = absurd (omega arith)
index_from-none ports ds (suc k) i j h a b = ground (arith, index_from-none ports ds k (suc i) j)

length-erase : (o : ℕ) (os : List ℕ) → 0 < count o os → length (erase o os) + 1 ≡ length os
unfolding erase count
length-erase o [] h = absurd (omega arith)
length-erase o (x ∷ os) h = ground (arith, length-erase o os)

module _ ⦃F : Floats⦄ where
  connected-some :
      (s : ℕ) (os : List ℕ) (w : World) (o i : ℕ)
      → connected s os w ≡ some (o, i)
      → (get_input o (pos i) w ≡ some s) × (0 < count o os)
  unfolding connected count
  connected-some s [] w o i h = cc
  connected-some s (x ∷ os) w o i h = ground (
    arith,
    connected-some s os w o i,
    index_from-some (w.modules x).inputs (some s) (get_input_count x w) 0 i,
    same_stream-some s (get_input o (pos i) w),
  )

  pub connected-none :
      (s : ℕ) (os : List ℕ) (w : World) (o j : ℕ)
      → connected s os w ≡ none
      → 0 < count o os
      → j < get_input_count o w
      → get_input o (pos j) w ≢ some s
  unfolding connected count
  connected-none s [] w o j h a b = absurd (omega arith)
  connected-none s (x ∷ os) w o j h a b = ground (
    arith,
    connected-none s os w o j,
    index_from-none (w.modules x).inputs (some s) (get_input_count x w) 0 j,
    same_stream_self s (get_input o (pos j) w),
  )

  -- Taking the stream off an input that holds it takes one entry off its observers, and leaves every
  -- other stream as it was.
  pub set_input-none :
      (m : ℕ) (n : ℤ) (s : ℕ) (w : World)
      → get_input m n w ≡ some s
      → (set_input m n none w).streams ≡ (remove_observer s m w).streams
  unfolding set_input
  set_input-none m n s w h = elim (Option-cases (find n (w.modules m).inputs)) [
    | inl e ↦ absurd (cc (ap stream_of e))
    | inr (p, e) ↦
        rw (e, set_input) (ap (λ x. (disconnect x m w).streams) (sym (ap stream_of e) ∙ h))
  ]

  -- No input is connected to the stream, and it has no observer.
  abbrev pub IsFreed : ℕ → World → Type 0
  IsFreed s w =
      ((w.streams s).observers ≡ [])
      × ((o j : ℕ) → j < get_input_count o w → get_input o (pos j) w ≢ some s)

  abbrev pub unobserved : ℕ → World → World
  unobserved s w = write_stream s (record (w.streams s) { observers = [] }) w

  freed :
      (s : ℕ) (w : World)
      → IsLinked w
      → connected s (w.streams s).observers w ≡ none
      → IsFreed s (unobserved s w)
  freed s w l e = (
    ground arith,
    λ o j h held. elim (Option-cases (find (pos j) (w.modules o).inputs)) [
      | inl gone ↦ cc
      | inr (p, there) ↦
          connected-none s (w.streams s).observers w o j e
            (omega (
              arith,
              l.counted o s,
              ports_on_pos s (pos j) (w.modules o).inputs p there (sym (ap stream_of there) ∙ held),
            ))
            h held
    ],
  )

  shorter :
      (o : ℕ) (n : ℤ) (s : ℕ) (w : World) (f : ℕ)
      → get_input o n w ≡ some s
      → 0 < count o (w.streams s).observers
      → length (w.streams s).observers < suc f
      → length ((set_input o n none w).streams s).observers < f
  unfolding remove_observer
  shorter o n s w f held there h =
      rw (set_input-none o n s w held) (ground (arith, length-erase o (w.streams s).observers))

  -- The rule of the loop: what every round keeps holds in the last world, where no observer of the
  -- stream is connected to it any more.
  pub remove_observers_loop_rule :
      (P : World → Type 0) (s : ℕ)
      → ((w : World) (o i : ℕ)
          → P w
          → get_input o (pos i) w ≡ some s
          → 0 < count o (w.streams s).observers
          → P (set_input o (pos i) none w))
      → (f : ℕ) (w : World) → P w
      → length (w.streams s).observers < f
      → (v : World) × P v
        × (connected s (v.streams s).observers v ≡ none)
        × (remove_observers_loop f s w ≡ some (unobserved s v))
  unfolding remove_observers_loop
  remove_observers_loop_rule P s keep zero w p h = elim h [ ]
  remove_observers_loop_rule P s keep (suc f) w p h =
      elim (Option-cases (connected s (w.streams s).observers w)) [
        | inl e ↦ (w, p, e, rw (e, remove_observers_loop))
        | inr ((o, i), e) ↦
            let hit = connected-some s (w.streams s).observers w o i e in
            rw (e, remove_observers_loop)
              (remove_observers_loop_rule P s keep f (set_input o (pos i) none w)
                (keep w o i p hit.0 hit.1) (shorter o (pos i) s w f hit.0 hit.1 h))
      ]

  pub remove_observers_rule :
      (P : World → Type 0) (s : ℕ)
      → ((w : World) (o i : ℕ)
          → P w
          → get_input o (pos i) w ≡ some s
          → 0 < count o (w.streams s).observers
          → P (set_input o (pos i) none w))
      → (w : World) → P w
      → (v : World) × P v
        × (connected s (v.streams s).observers v ≡ none)
        × (remove_observers s w ≡ some (unobserved s v))
  unfolding remove_observers
  remove_observers_rule P s keep w p =
      remove_observers_loop_rule P s keep (suc (length (w.streams s).observers)) w p (omega arith)

  -- In a world where observers and inputs agree, `removeObservers` ends, however often its loop
  -- starts again; then the stream has no observer, and no input of any module, numbered below the
  -- count of its inputs, holds it.
  pub remove_observers-IsFreed :
      (s : ℕ) (w : World)
      → IsLinked w
      → (w' : World) × (remove_observers s w ≡ some w') × IsFreed s w'
  remove_observers-IsFreed s w l =
      let (v, linked, none_left, ends) =
        remove_observers_rule IsLinked s
          (λ u o i p held there. set_input-IsLinked o (pos i) none u p) w l in
      (unobserved s v, ends, freed s v linked none_left)
