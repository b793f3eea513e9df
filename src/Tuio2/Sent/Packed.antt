-- ===== src/Tuio2/Sent/Packed.antt =====
-- The messages that src/modules/moTuio2Module.cpp makes of the blobs that carry what they
-- say that they implement.
use movid.Base.{
  Text, ℤ, pos, ◌≡◌, refl, ◌∙◌, ap, sym, true, not, some, is_some, List, [], ◌∷◌, ◌++◌, codes, null,
  All, inl, inr, Bool-cases, Option-cases,
}
use mathlib.Core.List.{append_assoc, append-nil}
use movid.Base.Dict.{find, insert, int_key, text_key}
use movid.Blob.{Container, has_property, integer_at, double_at, lists}
use movid.Float.{Floats}
use movid.Property.{as_integer}
use movid.Tracker.Ids.{blob_id_of}
use movid.Tuio.{int_arg, float_arg, Message}
use movid.Tuio.Frames.{IsPlaced, IsSized, session_ids, id_at, float_at_total}
use movid.Tuio2.{
  Tuio2Format, tuio2_unknown, tuio2_cursor, tuio2_fiducial, packet, Relations, relate, gather_blob,
  gather, pack_size, pack_blob, pack_fiducial, probe, pack,
}

module _ ⦃F : Floats⦄ where
  open F use {Double}

  -- The blob has what it says that it implements: an id and a position, and a size or a node if it
  -- names them.
  pub record IsComplete (b : Container) : Type 0 where
    pub placed : IsPlaced b
    pub sized : lists (codes "size") placed.words ≡ true → IsSized b
    pub node :
        lists (codes "node") placed.words ≡ true
        → (z : ℤ) × (integer_at (codes "node_id") b ≡ some z)

  abbrev pub HasAngle : Container → Type 0
  HasAngle b = (angle : Double) × (double_at (codes "angle") b ≡ some angle)

  pub parent_total :
      (b : Container)
      → has_property (codes "parent_node_id") b ≡ true
      → (z : ℤ) × (integer_at (codes "parent_node_id") b ≡ some z)
  unfolding has_property integer_at
  parent_total b h = elim (Option-cases (find (codes "parent_node_id") b)) [
    | inl e ↦ cc (ap is_some e)
    | inr (p, e) ↦ (as_integer p, rw e refl)
  ]

  relate_total :
      (words : Text) (id : ℤ) (b : Container) (r : Relations)
      → (lists (codes "node") words ≡ true → (z : ℤ) × (integer_at (codes "node_id") b ≡ some z))
      → (q : Relations) × (relate words id b r ≡ some q) × (q.alive ≡ r.alive)
  unfolding relate
  relate_total words id b r c = elim (Bool-cases (lists (codes "node") words)) [
    | inr e ↦ (r, rw e refl, refl)
    | inl e ↦
        let (node, has_node) = c e in
        let known = record r { nodes = insert node id r.nodes } in
        elim (Bool-cases (has_property (codes "parent_node_id") b)) [
          | inr f ↦ (known, rw (e, has_node, f) refl, refl)
          | inl f ↦
              let (p, g) = parent_total b f in
              (
                record known {
                  ids_blob = r.ids_blob ++ id ∷ [];
                  ids_parent = r.ids_parent ++ p ∷ [];
                },
                rw (e, has_node, f, g) refl,
                refl,
              )
        ]
  ]

  pub gather_total :
      (bs : List Container) (r : Relations)
      → All IsComplete bs
      → (q : Relations) × (gather bs r ≡ some q) × (q.alive ≡ r.alive ++ session_ids bs)
  unfolding gather gather_blob
  gather_total [] r a = (r, refl, sym (append-nil r.alive))
  gather_total (b ∷ bs) r a =
      let p = (a.0).placed in
      let (next, e, same) =
        relate_total p.words (blob_id_of b) b
          (record r { alive = r.alive ++ int_arg (blob_id_of b) ∷ [] }) (a.0).node in
      let (q, f, all) = gather_total bs next a.1 in
      (
        q,
        rw (p.says, p.tracked, id_at b p, e) f,
        all
            ∙ ap (λ l. l ++ session_ids bs) same
            ∙ append_assoc r.alive (int_arg (blob_id_of b) ∷ []) (session_ids bs),
      )

  pack_size_total : (b : Container) → IsComplete b → (ms : List Message) × (pack_size b ≡ some ms)
  unfolding pack_size
  pack_size_total b c =
      let p = c.placed in
      let x = float_at_total (codes "x") b p.x p.has_x in
      let y = float_at_total (codes "y") b p.y p.has_y in
      elim (Bool-cases (lists (codes "size") p.words)) [
        | inl e ↦
            let s = c.sized e in
            let w = float_at_total (codes "width") b s.width s.has_width in
            let h = float_at_total (codes "height") b s.height s.has_height in
            (
              packet (codes "/tuio2/bnd") (
                    int_arg (blob_id_of b)
                    ∷ float_arg (F.to_float p.x)
                    ∷ float_arg (F.to_float p.y)
                    ∷ float_arg (F.to_float F.zero_double)
                    ∷ float_arg (F.to_float s.width)
                    ∷ float_arg (F.to_float s.height)
                    ∷ float_arg (F.to_float F.one_double)
                    ∷ [])
                  ∷ [],
              rw (p.says, e, id_at b p, x, y, w, h) refl,
            )
        | inr e ↦ ([], rw (p.says, e) refl)
      ]

  pack_blob_total :
      (bs : List Container) → All IsComplete bs → (ms : List Message) × (pack_blob bs ≡ some ms)
  unfolding pack_blob
  pack_blob_total [] a = ([], refl)
  pack_blob_total (b ∷ bs) a =
      let p = (a.0).placed in
      let x = float_at_total (codes "x") b p.x p.has_x in
      let y = float_at_total (codes "y") b p.y p.has_y in
      let (size, e) = pack_size_total b a.0 in
      let (rest, f) = pack_blob_total bs a.1 in
      (
        packet (codes "/tuio2/ptr") (
              int_arg (blob_id_of b)
              ∷ int_arg (pos 1)
              ∷ int_arg (blob_id_of b)
              ∷ float_arg (F.to_float p.x)
              ∷ float_arg (F.to_float p.y)
              ∷ int_arg (pos 0)
              ∷ int_arg (pos 1)
              ∷ [])
            ∷ (size ++ rest),
        rw (id_at b p, x, y, e, f) refl,
      )

  pack_fiducial_total :
      (bs : List Container)
      → All IsComplete bs
      → All HasAngle bs
      → (ms : List Message) × (pack_fiducial bs ≡ some ms)
  unfolding pack_fiducial
  pack_fiducial_total [] a o = ([], refl)
  pack_fiducial_total (b ∷ bs) a o =
      let p = (a.0).placed in
      let x = float_at_total (codes "x") b p.x p.has_x in
      let y = float_at_total (codes "y") b p.y p.has_y in
      let angle = float_at_total (codes "angle") b o.0.0 o.0.1 in
      let (rest, f) = pack_fiducial_total bs a.1 o.1 in
      (
        packet (codes "/tuio2/tok") (
              int_arg (blob_id_of b)
              ∷ int_arg (blob_id_of b)
              ∷ int_arg (blob_id_of b)
              ∷ float_arg (F.to_float p.x)
              ∷ float_arg (F.to_float p.y)
              ∷ float_arg (F.to_float o.0.0)
              ∷ [])
            ∷ rest,
        rw (id_at b p, x, y, angle, f) refl,
      )

  -- The format that the first blob gives, and the packing for it.
  pub packed_total :
      (bs : List Container)
      → All IsComplete bs
      → (probe bs ≡ some tuio2_fiducial → All HasAngle bs)
      → (format : Tuio2Format) × (ms : List Message) × (probe bs ≡ some format)
        × (pack format bs ≡ some (ms, not (null bs)))
  unfolding probe pack
  packed_total [] a o = (tuio2_unknown, [], refl, refl)
  packed_total (b ∷ bs) a o =
      let p = (a.0).placed in
      elim (Bool-cases (lists (codes "fiducial") p.words)) [
        | inl e ↦
            let (ms, f) = pack_fiducial_total (b ∷ bs) a (o (rw (p.says, e) refl)) in
            (tuio2_fiducial, ms, rw (p.says, e) refl, rw f refl)
        | inr e ↦
            let (ms, f) = pack_blob_total (b ∷ bs) a in
            (tuio2_cursor, ms, rw (p.says, e) refl, rw f refl)
      ]
