-- ===== src/Module/Ports.antt =====
-- src/moModule.cpp: the inputs and outputs of a module and their connection to streams, with
-- `removeObservers` of src/moDataStream.cpp, which disconnects them.
use movid.Base.{
  ℕ, zero, suc, Text, ℤ, pos, negsuc, Bool, true, false, Option, none, some, List, [], ◌∷◌, ◌++◌,
  ◌==◌, if◌then◌else◌, codes, length,
}
use movid.Base.Dict.{Dict, find, insert, modify, int_key}
use movid.Float.{Floats}
use movid.Number.{print_int}
use movid.World.{Info, Port, World, write_module, write_stream}
use movid.DataStream.{is_stream_valid, add_observer, remove_observer, set_format}

abbrev pub stream_of : Option Port → Option ℕ
stream_of none = none
stream_of (some p) = p.stream

abbrev pub same_stream : Option ℕ → Option ℕ → Bool
same_stream none none = true
same_stream none (some b) = false
same_stream (some a) none = false
same_stream (some a) (some b) = a == b

-- `for ( i = ...; i < count; i++ ) if ( ds == get(i) ) return i;` from `i`, with `k` rounds left
unfoldable pub index_from : Dict ℤ Port → Option ℕ → ℕ → ℕ → Option ℕ
index_from ports ds zero i = none
index_from ports ds (suc k) i =
    let rest = index_from ports ds k (suc i) in
    if same_stream ds (stream_of (find (pos i) ports)) then some i else rest

-- -1 where there is none
abbrev pub index_or_minus : Option ℕ → ℤ
index_or_minus none = negsuc 0
index_or_minus (some i) = pos i

unfoldable pub input_error : ℤ → Text → Text → Text
input_error n type format =
    codes "Input "
    ++ (print_int n
        ++ (codes " accepts <" ++ (type ++ (codes "> but got <" ++ (format ++ codes ">")))))

abbrev pub retype : Text → Port → Port
retype type p = record p { info = record (p.info) { type = type } }

module _ ⦃F : Floats⦄ where
  unfoldable pub declare_input : ℕ → ℤ → Port → World → World
  declare_input m n port w =
      write_module m (record (w.modules m) { inputs = insert n port (w.modules m).inputs }) w

  unfoldable pub declare_output : ℕ → ℤ → Port → World → World
  declare_output m n port w =
      write_module m (record (w.modules m) { outputs = insert n port (w.modules m).outputs }) w

  abbrev pub get_input : ℕ → ℤ → World → Option ℕ
  get_input m n w = stream_of (find n (w.modules m).inputs)

  abbrev pub get_output : ℕ → ℤ → World → Option ℕ
  get_output m n w = stream_of (find n (w.modules m).outputs)

  abbrev pub get_input_count : ℕ → World → ℕ
  get_input_count m w = length (w.modules m).inputs

  abbrev pub get_output_count : ℕ → World → ℕ
  get_output_count m w = length (w.modules m).outputs

  unfoldable pub get_input_index : ℕ → Option ℕ → World → ℤ
  unfolding index_from
  get_input_index m ds w =
      index_or_minus (index_from (w.modules m).inputs ds (get_input_count m w) 0)

  unfoldable pub get_output_index : ℕ → Option ℕ → World → ℤ
  unfolding index_from
  get_output_index m ds w =
      index_or_minus (index_from (w.modules m).outputs ds (get_output_count m w) 0)

  unfoldable pub set_error : ℕ → Text → World → World
  set_error m msg w = write_module m (record (w.modules m) { is_error = true; error_msg = msg }) w

  -- `*input = stream`
  unfoldable pub write_input : ℕ → ℤ → Option ℕ → World → World
  write_input m n stream w =
      write_module m
        (record (w.modules m) {
          inputs = modify n (λ p. record p { stream = stream }) (w.modules m).inputs;
        })
        w

  abbrev pub disconnect : Option ℕ → ℕ → World → World
  disconnect none m w = w
  disconnect (some old) m w = remove_observer old m w

  -- The end of `setInput`, once the storage points to the new stream.
  unfoldable pub check_input : ℕ → ℤ → Info → Option ℕ → World → World
  check_input m n info none w = w
  check_input m n info (some s) w =
      if is_stream_valid info (w.streams s).format
      then add_observer s m w
      else write_input m n none (set_error m (input_error n info.type (w.streams s).format) w)

  unfoldable pub set_input : ℕ → ℤ → Option ℕ → World → World
  unfolding check_input write_input set_error remove_observer add_observer
  set_input m n stream w = elim (find n (w.modules m).inputs) [
    | none ↦ set_error m (codes "Invalid input index") w
    | some port ↦
        check_input m n port.info stream (write_input m n stream (disconnect port.stream m w))
  ]

  abbrev pub set_stream_format : Option ℕ → Text → World → World
  set_stream_format none type w = w
  set_stream_format (some s) type w = set_format s type w

  unfoldable pub set_input_type : ℕ → ℤ → Text → World → World
  set_input_type m n type w =
      let w' = set_stream_format (get_input m n w) type w in
      write_module m
        (record (w'.modules m) { inputs = modify n (retype type) (w'.modules m).inputs }) w'

  unfoldable pub set_output_type : ℕ → ℤ → Text → World → World
  set_output_type m n type w =
      let w' = set_stream_format (get_output m n w) type w in
      write_module m
        (record (w'.modules m) { outputs = modify n (retype type) (w'.modules m).outputs }) w'

  -- The first observer, and the first of its inputs, that is still connected to the stream.
  unfoldable pub connected : ℕ → List ℕ → World → Option (ℕ × ℕ)
  unfolding index_from
  connected s [] w = none
  connected s (o ∷ os) w =
      let rest = connected s os w in
      elim (index_from (w.modules o).inputs (some s) (get_input_count o w) 0) [
        | some i ↦ some (o, i)
        | none ↦ rest
      ]

  -- The loop around `goto restartremove`, by fuel.
  unfoldable pub remove_observers_loop : ℕ → ℕ → World → Option World
  unfolding connected set_input
  remove_observers_loop zero s w = none
  remove_observers_loop (suc f) s w = elim (connected s (w.streams s).observers w) [
    | none ↦ some (write_stream s (record (w.streams s) { observers = [] }) w)
    | some (o, i) ↦ remove_observers_loop f s (set_input o (pos i) none w)
  ]

  unfoldable pub remove_observers : ℕ → World → Option World
  unfolding remove_observers_loop
  remove_observers s w = remove_observers_loop (suc (length (w.streams s).observers)) s w
