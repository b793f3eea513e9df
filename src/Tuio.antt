-- ===== src/Tuio.antt =====
-- src/modules/moTuioModule.cpp: the OSC bundles that the TUIO module sends for tracked blobs. A bundle
-- is the list of its messages, as WOscBundle and WOscMessage of the WOscLib library gather them.
-- `none` is that of Blob.
pub mod Frames
use movid.Base.{
  ◌+◌, Text, ℤ, pos, to_int32, ◌+ℤ◌, Bool, true, false, ◌&&◌, Option, none, some, List, [], ◌∷◌,
  ◌++◌, codes, if◌then◌else◌,
}
use movid.Blob.{Container, integer_at, string_at, double_at, lists}
use movid.Float.{Floats}
use movid.Property.{string, integer, bool, Property, new_property, as_bool, as_string, as_integer}
use movid.Tracker.Greedy.{is_object}
use movid.Utils.{◌>>=◌}

pub data TuioType : Type 0 where
  tuio_unknown tuio_2dcur tuio_2dobj : TuioType

module _ ⦃F : Floats⦄ where
  open F use {Double}

  pub data Argument : Type 0 where
    int_arg : ℤ → Argument
    float_arg : Double → Argument
    text_arg : Text → Argument

  pub record Message : Type 0 where
    pub path : Text
    pub arguments : List Argument

  -- `osc` is the address and the port of the client, if it is there.
  pub record Tuio : Type 0 where
    pub ip : Property
    pub port : Property
    pub sendsize : Property
    pub osc : Option (Text × ℤ)
    pub fseq : ℤ
    pub type : TuioType

  unfoldable pub new_tuio : Tuio
  new_tuio = record {
    ip = new_property (string (codes "127.0.0.1")) [];
    port = new_property (integer (pos 3333)) [];
    sendsize = new_property (bool true) [];
    osc = none;
    fseq = pos 0;
    type = tuio_unknown;
  }

  -- `start` and `stop`, next to those of moModule
  unfoldable pub start_tuio : Tuio → Tuio
  start_tuio t = record t { osc = some (as_string t.ip, as_integer t.port) }

  unfoldable pub stop_tuio : Tuio → Tuio
  stop_tuio t = record t { osc = none }

  -- `type` after the first blob was looked at; the inner `none` is an early return.
  unfoldable pub probe_type : TuioType → List Container → Option (Option TuioType)
  probe_type tuio_2dcur blobs = some (some tuio_2dcur)
  probe_type tuio_2dobj blobs = some (some tuio_2dobj)
  probe_type tuio_unknown [] = some none
  probe_type tuio_unknown (b ∷ bs) = do
    implements ← string_at (codes "implements") b
    some (some (if is_object implements then tuio_2dobj else tuio_2dcur))

  abbrev pub osc_path : TuioType → Text
  osc_path tuio_2dobj = codes "/tuio/2Dobj"
  osc_path tuio_2dcur = codes "/tuio/2Dcur"
  osc_path tuio_unknown = codes "/tuio/2Dcur"

  -- The arguments of the alive message after its name, with the asserts.
  unfoldable pub alive_ids : List Container → Option (List Argument)
  alive_ids [] = some []
  alive_ids (b ∷ bs) = do
    implements ← string_at (codes "implements") b
    (if lists (codes "tracked") implements && lists (codes "pos") implements
        then (do id ← integer_at (codes "blob_id") b; rest ← alive_ids bs; some (int_arg id ∷ rest))
        else none)

  -- (float)properties[name]->asDouble()
  unfoldable pub float_at : Text → Container → Option Argument
  float_at name b = do d ← double_at name b; some (float_arg (F.to_float d))

  abbrev pub float_zero : Argument
  float_zero = float_arg (F.to_float F.zero_double)

  -- /tuio/2Dobj set s i x y a X Y A m r
  unfoldable pub set_object : Container → Option (List Argument)
  set_object b = do
    id ← integer_at (codes "blob_id") b
    fid ← integer_at (codes "fiducial_id") b
    x ← float_at (codes "x") b
    y ← float_at (codes "y") b
    angle ← float_at (codes "angle") b
    some (
        int_arg id
        ∷ int_arg fid
        ∷ x
        ∷ y
        ∷ angle
        ∷ float_zero
        ∷ float_zero
        ∷ float_zero
        ∷ float_zero
        ∷ float_zero
        ∷ [])

  unfoldable pub size_arguments : Property → Container → Option (List Argument)
  size_arguments sendsize b = do
    implements ← string_at (codes "implements") b
    (if as_bool sendsize && lists (codes "size") implements
        then (do
          width ← float_at (codes "width") b
          height ← float_at (codes "height") b
          some (width ∷ height ∷ []))
        else some [])

  -- /tuio/2Dcur set s x y X Y m
  unfoldable pub set_cursor : Property → Container → Option (List Argument)
  set_cursor sendsize b = do
    id ← integer_at (codes "blob_id") b
    x ← float_at (codes "x") b
    y ← float_at (codes "y") b
    size ← size_arguments sendsize b
    some (int_arg id ∷ x ∷ y ∷ float_zero ∷ float_zero ∷ float_zero ∷ size)

  unfoldable pub set_arguments : Property → TuioType → Container → Option (List Argument)
  set_arguments sendsize tuio_2dobj b = set_object b
  set_arguments sendsize tuio_2dcur b = set_cursor sendsize b
  set_arguments sendsize tuio_unknown b = some []

  abbrev pub osc_message : TuioType → Text → List Argument → Message
  osc_message type name arguments = record {
    path = osc_path type;
    arguments = text_arg name ∷ arguments;
  }

  unfoldable pub set_messages : Property → TuioType → List Container → Option (List Message)
  set_messages sendsize type [] = some []
  set_messages sendsize type (b ∷ bs) = do
    arguments ← set_arguments sendsize type b
    rest ← set_messages sendsize type bs
    some (osc_message type (codes "set") arguments ∷ rest)

  -- The bundle, and the module after it.
  unfoldable pub send_frame : Tuio → TuioType → List Container → Option (Tuio × List Message)
  send_frame t type blobs = do
    ids ← alive_ids blobs
    sets ← set_messages t.sendsize type blobs
    client ← t.osc
    some (
      record t { type = type; fseq = to_int32 (t.fseq +ℤ pos 1) },
      osc_message type (codes "alive") ids
          ∷ (sets ++ osc_message type (codes "fseq") (int_arg t.fseq ∷ []) ∷ []),
    )

  -- `notifyData` on the blobs of the input; `[]` is no bundle at all.
  unfoldable pub notify_blobs : Tuio → List Container → Option (Tuio × List Message)
  notify_blobs t blobs = do
    type ← probe_type t.type blobs
    elim type [ none ↦ some (t, []) | some known ↦ send_frame t known blobs ]
