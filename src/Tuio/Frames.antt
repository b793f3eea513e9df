-- ===== src/Tuio/Frames.antt =====
-- What src/modules/moTuioModule.cpp sends: the alive message and the set messages speak of the same
-- blobs.
use movid.Base.{
  Text, ℤ, pos, to_int32, ◌+ℤ◌, ◌≡◌, refl, ◌∙◌, ap, ap₂, sym, true, ◌&&◌, Option, none, some, List,
  [], ◌∷◌, ◌++◌, codes, map, All, inl, inr, Bool-cases,
}
use movid.Blob.{Container, integer_at, string_at, double_at, lists}
use movid.Float.{Floats}
use movid.Property.{Property, as_bool}
use movid.Tuio.{
  TuioType, tuio_unknown, tuio_2dcur, tuio_2dobj, Argument, int_arg, float_arg, Message, Tuio,
  probe_type, osc_path, alive_ids, float_at, float_zero, set_object, size_arguments, set_cursor,
  set_arguments, osc_message, set_messages, send_frame, notify_blobs,
}
use movid.Tracker.Ids.{value, blob_id_of}

module _ ⦃F : Floats⦄ where
  open F use {Double}

  -- A blob with an id and a position, which says so.
  pub record IsPlaced (b : Container) : Type 0 where
    pub words : Text
    pub id : ℤ
    pub x : Double
    pub y : Double
    pub says : string_at (codes "implements") b ≡ some words
    pub tracked : lists (codes "tracked") words ≡ true
    pub placed : lists (codes "pos") words ≡ true
    pub has_id : integer_at (codes "blob_id") b ≡ some id
    pub has_x : double_at (codes "x") b ≡ some x
    pub has_y : double_at (codes "y") b ≡ some y

  pub record IsSized (b : Container) : Type 0 where
    pub width : Double
    pub height : Double
    pub has_width : double_at (codes "width") b ≡ some width
    pub has_height : double_at (codes "height") b ≡ some height

  pub record IsObject (b : Container) : Type 0 where
    pub fid : ℤ
    pub angle : Double
    pub has_fid : integer_at (codes "fiducial_id") b ≡ some fid
    pub has_angle : double_at (codes "angle") b ≡ some angle

  -- What each type of message reads.
  abbrev pub IsSendable : TuioType → Container → Type 0
  IsSendable tuio_2dcur b = IsPlaced b × IsSized b
  IsSendable tuio_2dobj b = IsPlaced b × IsObject b
  IsSendable tuio_unknown b = ⊥

  pub IsSendable-IsPlaced : (type : TuioType) (b : Container) → IsSendable type b → IsPlaced b
  IsSendable-IsPlaced tuio_2dcur b s = s.0
  IsSendable-IsPlaced tuio_2dobj b s = s.0
  IsSendable-IsPlaced tuio_unknown b s = absurd s

  -- The session ids of the blobs.
  abbrev pub session_ids : List Container → List Argument
  session_ids bs = map (λ b. int_arg (blob_id_of b)) bs

  -- The session id that a set message carries.
  abbrev pub second : List Argument → Option Argument
  second [] = none
  second (a ∷ []) = none
  second (a ∷ b ∷ rest) = some b

  abbrev pub session : Message → Option Argument
  session m = second m.arguments

  pub id_at : (b : Container) → IsPlaced b → integer_at (codes "blob_id") b ≡ some (blob_id_of b)
  id_at b p = p.has_id ∙ ap some (sym (ap value p.has_id))

  alive_ids_total :
      (type : TuioType) (bs : List Container)
      → All (IsSendable type) bs
      → alive_ids bs ≡ some (session_ids bs)
  unfolding alive_ids
  alive_ids_total type [] a = refl
  alive_ids_total type (b ∷ bs) a =
      let p = IsSendable-IsPlaced type b a.0 in
      rw (p.says, p.tracked, p.placed, id_at b p, alive_ids_total type bs a.1) refl

  pub float_at_total :
      (name : Text) (b : Container) (d : Double)
      → double_at name b ≡ some d
      → float_at name b ≡ some (float_arg (F.to_float d))
  unfolding float_at
  float_at_total name b d h = rw h refl

  -- The arguments of a set message begin with the session id.
  abbrev SetsOf : TuioType → Property → Container → Type 0
  SetsOf type sendsize b =
      (rest : List Argument) × (set_arguments sendsize type b
        ≡ some (int_arg (blob_id_of b) ∷ rest))

  size_total :
      (sendsize : Property) (b : Container)
      → IsPlaced b
      → IsSized b
      → (size : List Argument) × (size_arguments sendsize b ≡ some size)
  unfolding size_arguments
  size_total sendsize b p s =
      let w = float_at_total (codes "width") b s.width s.has_width in
      let h = float_at_total (codes "height") b s.height s.has_height in
      elim (Bool-cases (as_bool sendsize && lists (codes "size") p.words)) [
        | inl e ↦ (
          float_arg (F.to_float s.width) ∷ float_arg (F.to_float s.height) ∷ [],
          rw (p.says, e, w, h) refl,
        )
        | inr e ↦ ([], rw (p.says, e) refl)
      ]

  set_total :
      (type : TuioType) (sendsize : Property) (b : Container)
      → IsSendable type b
      → SetsOf type sendsize b
  unfolding set_arguments set_cursor set_object
  set_total tuio_2dcur sendsize b (p, s) =
      let x = float_at_total (codes "x") b p.x p.has_x in
      let y = float_at_total (codes "y") b p.y p.has_y in
      let (size, e) = size_total sendsize b p s in
      (
        float_arg (F.to_float p.x)
            ∷ float_arg (F.to_float p.y)
            ∷ float_zero
            ∷ float_zero
            ∷ float_zero
            ∷ size,
        rw (id_at b p, x, y, e) refl,
      )
  set_total tuio_2dobj sendsize b (p, o) =
      let x = float_at_total (codes "x") b p.x p.has_x in
      let y = float_at_total (codes "y") b p.y p.has_y in
      let a = float_at_total (codes "angle") b o.angle o.has_angle in
      (
        int_arg o.fid
            ∷ float_arg (F.to_float p.x)
            ∷ float_arg (F.to_float p.y)
            ∷ float_arg (F.to_float o.angle)
            ∷ float_zero
            ∷ float_zero
            ∷ float_zero
            ∷ float_zero
            ∷ float_zero
            ∷ [],
        rw (id_at b p, o.has_fid, x, y, a) refl,
      )
  set_total tuio_unknown sendsize b s = absurd s

  set_messages_total :
      (type : TuioType) (sendsize : Property) (bs : List Container)
      → All (IsSendable type) bs
      → (sets : List Message) × (set_messages sendsize type bs ≡ some sets)
        × (map session sets ≡ map some (session_ids bs))
        × All (λ m. m.path ≡ osc_path type) sets
  unfolding set_messages
  set_messages_total type sendsize [] a = ([], refl, refl, tt)
  set_messages_total type sendsize (b ∷ bs) a =
      let (rest, e) = set_total type sendsize b a.0 in
      let (sets, f, same, paths) = set_messages_total type sendsize bs a.1 in
      (
        osc_message type (codes "set") (int_arg (blob_id_of b) ∷ rest) ∷ sets,
        rw (e, f) refl,
        ap₂ (λ x xs. x ∷ xs) refl same,
        (refl, paths),
      )

  -- Every frame of blobs that have what the known type of messages reads is sent: an alive message
  -- with the session ids of the blobs in order, a set message for each of the blobs under the same
  -- ids in the same order, and the frame number, which grows by one. All go to the path of the type,
  -- and the type stays. This is for a module that was started.
  pub notify_blobs_frame :
      (t : Tuio) (type : TuioType) (client : Text × ℤ) (bs : List Container)
      → t.osc ≡ some client
      → probe_type t.type bs ≡ some (some type)
      → All (IsSendable type) bs
      → (sets : List Message) × (notify_blobs t bs
          ≡ some (
            record t { type = type; fseq = to_int32 (t.fseq +ℤ pos 1) },
            osc_message type (codes "alive") (session_ids bs)
                ∷ (sets ++ osc_message type (codes "fseq") (int_arg t.fseq ∷ []) ∷ []),
          ))
        × (map session sets ≡ map some (session_ids bs))
        × All (λ m. m.path ≡ osc_path type) sets
  unfolding notify_blobs send_frame
  notify_blobs_frame t type client bs o known a =
      let (sets, f, same, paths) = set_messages_total type t.sendsize bs a in
      (sets, rw (known, alive_ids_total type bs a, f, o) refl, same, paths)
