-- ===== src/DataStream.antt =====
-- src/moDataStream.cpp: streams, their observers, and the types that an input accepts.
use movid.Base.{
  ℕ, Text, Bool, true, false, Option, none, some, List, [], ◌∷◌, ◌++◌, ◌==◌, if◌then◌else◌, codes,
  text_eq, length, get_elem?,
}
use movid.Float.{Floats}
use movid.Utils.{in_list}
use movid.World.{Info, Stream, notify_data, World, write_stream, emit}

-- `inList` always returns (Utils/Words).
abbrev pub returned : Option Bool → Bool
returned none = false
returned (some b) = b

-- `isStreamValid` on a stream that is not NULL, of which it reads the format
unfoldable pub is_stream_valid : Info → Text → Bool
is_stream_valid info format =
    if text_eq info.type (codes "*") then true else returned (in_list format info.type (codes ","))

abbrev pub new_stream : Text → Stream
new_stream format = record { format = format; content = none; observers = [] }

-- The first occurrence goes.
unfoldable pub erase : ℕ → List ℕ → List ℕ
erase m [] = []
erase m (o ∷ os) = if o == m then os else o ∷ erase m os

module _ ⦃F : Floats⦄ where
  unfoldable pub set_format : ℕ → Text → World → World
  set_format s format w = write_stream s (record (w.streams s) { format = format }) w

  unfoldable pub add_observer : ℕ → ℕ → World → World
  add_observer s m w =
      write_stream s (record (w.streams s) { observers = (w.streams s).observers ++ m ∷ [] }) w

  unfoldable pub remove_observer : ℕ → ℕ → World → World
  remove_observer s m w =
      write_stream s (record (w.streams s) { observers = erase m (w.streams s).observers }) w

  unfoldable pub get_observer_count : ℕ → World → ℕ
  get_observer_count s w = length (w.streams s).observers

  -- `none` is a failed `assert`.
  unfoldable pub get_observer : ℕ → ℕ → World → Option ℕ
  get_observer s index w = get_elem? (w.streams s).observers index

  unfoldable pub notify_observers : ℕ → List ℕ → World → World
  notify_observers s [] w = w
  notify_observers s (m ∷ ms) w = notify_observers s ms (emit (notify_data m s) w)

  -- `push` stores the pointer, and tells every observer in the order in which they were added.
  unfoldable pub push : ℕ → Option ℕ → World → World
  unfolding notify_observers
  push s content w =
      notify_observers s (w.streams s).observers
        (write_stream s (record (w.streams s) { content = content }) w)
