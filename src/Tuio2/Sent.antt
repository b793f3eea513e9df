-- ===== src/Tuio2/Sent.antt =====
-- What src/modules/moTuio2Module.cpp sends, for blobs that carry what they say that they implement.
pub mod Packed
use movid.Base.{
  Text, ℤ, pos, to_int32, eq_ℤ, ◌+ℤ◌, ◌≡◌, refl, ◌∙◌, ap, sym, Bool, true, false, not, Option, some,
  is_some, List, [], ◌∷◌, ◌++◌, codes, map, null, All, inl, inr, Bool-cases, Option-cases,
}
use mathlib.Core.List.{append_assoc, append-nil}
use movid.Base.Dict.{Dict, find, insert, int_key, text_key}
use movid.Blob.{Container, has_property, integer_at, lists}
use movid.Float.{Floats}
use movid.Property.{as_integer}
use movid.Tracker.Ids.{blob_id_of}
use movid.Tuio.{Argument, int_arg, float_arg, text_arg, Message}
use movid.Tuio.Frames.{IsPlaced, IsSized, IsObject, session_ids, id_at, float_at_total}
use movid.Tuio2.{
  Tuio2Format, tuio2_unknown, tuio2_cursor, tuio2_fiducial, Tuio2, packet, Relations, no_relations,
  relate, gather_blob, gather, pack_size, pack_blob, pack_fiducial, probe, pack, unique, blob_of,
  child_of, children, coa_messages, relation_messages, client_ready, notify_blobs2,
}
use movid.Tuio2.Sent.Packed.{IsComplete, HasAngle, parent_total, gather_total, packed_total}

module _ ⦃F : Floats⦄ where
  open F use {Double}

  child_of_total :
      (parent : ℤ) (b : Container)
      → IsComplete b
      → (child : List Argument) × (child_of parent b ≡ some child)
  unfolding child_of
  child_of_total parent b c =
      let p = c.placed in
      elim (Bool-cases (lists (codes "node") p.words)) [
        | inr e ↦ ([], rw (p.says, e) refl)
        | inl e ↦ elim (Bool-cases (has_property (codes "parent_node_id") b)) [
          | inr f ↦ ([], rw (p.says, e, f) refl)
          | inl f ↦
              let (z, g) = parent_total b f in
              elim (Bool-cases (eq_ℤ z parent)) [
                | inl h ↦ (int_arg (blob_id_of b) ∷ [], rw (p.says, e, f, g, h, id_at b p) refl)
                | inr h ↦ ([], rw (p.says, e, f, g, h) refl)
              ]
        ]
      ]

  children_total :
      (parent : ℤ) (bs : List Container)
      → All IsComplete bs
      → (cs : List Argument) × (children parent bs ≡ some cs)
  unfolding children
  children_total parent [] a = ([], refl)
  children_total parent (b ∷ bs) a =
      let (c, e) = child_of_total parent b a.0 in
      let (cs, f) = children_total parent bs a.1 in (c ++ cs, rw (e, f) refl)

  coa_total :
      (nodes : Dict ℤ ℤ) (bs : List Container) (parents : List ℤ)
      → All IsComplete bs
      → (ms : List Message) × (coa_messages nodes bs parents ≡ some ms)
  unfolding coa_messages
  coa_total nodes bs [] a = ([], refl)
  coa_total nodes bs (p ∷ parents) a =
      let (cs, e) = children_total p bs a in
      let (ms, f) = coa_total nodes bs parents a in
      (
        packet (codes "/tuio2/coa") (int_arg (blob_of nodes p) ∷ int_arg (pos 0) ∷ cs) ∷ ms,
        rw (e, f) refl,
      )

  relation_total :
      (r : Relations) (bs : List Container)
      → All IsComplete bs
      → (ms : List Message) × (relation_messages r bs ≡ some ms)
  unfolding relation_messages
  relation_total r bs a = elim (Bool-cases (null r.ids_blob)) [
    | inl e ↦ ([], rw e refl)
    | inr e ↦
        let (coa, f) = coa_total r.nodes bs (unique r.ids_parent) a in
        (
          packet (codes "/tuio2/ala") (
                map (λ parent. int_arg (blob_of r.nodes parent)) (unique r.ids_parent)
                ++ map int_arg (unique r.ids_blob))
              ∷ coa,
          rw (e, f) refl,
        )
  ]

  client_total :
      (sent : Bool) (osc : Option (Text × ℤ)) (client : Text × ℤ)
      → osc ≡ some client
      → client_ready sent osc ≡ some sent
  client_total true osc client h = rw h refl
  client_total false osc client h = refl

  -- Once the module was started, every notification returns for blobs that have an id, a position
  -- and what else they say that they implement, and an angle too if the first is a fiducial: the bundle begins with the frame number and the time, and with the session ids of the
  -- blobs in order; it is sent exactly when there is a blob, and the frame number grows by one
  -- whether it is sent or not.
  pub notify_blobs2_sent :
      (t : Tuio2) (time : Double) (client : Text × ℤ) (bs : List Container)
      → t.osc ≡ some client
      → All IsComplete bs
      → (probe bs ≡ some tuio2_fiducial → All HasAngle bs)
      → (ms : List Message) × (notify_blobs2 t time bs
          ≡ some (
            record t { frame = to_int32 (t.frame +ℤ pos 1) },
            packet
                  (codes "/tuio2/frm")
                  (int_arg t.frame ∷ int_arg (F.to_int time) ∷ text_arg (codes "movid") ∷ [])
                ∷ packet (codes "/tuio2/alv") (session_ids bs)
                ∷ ms,
            not (null bs),
          ))
  unfolding notify_blobs2
  notify_blobs2_sent t time client bs o a angles =
      let (r, e, alive) = gather_total bs no_relations a in
      let (format, packed, f, g) = packed_total bs a angles in
      let (related, h) = relation_total r bs a in
      let c = client_total (not (null bs)) t.osc client o in
      (packed ++ related, rw (e, f, g, h, c, alive) refl)
