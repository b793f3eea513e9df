-- ===== src/Tuio2.antt =====
-- src/modules/moTuio2Module.cpp: the OSC bundles of the second version of TUIO. Messages are those of
-- Tuio, and `none` is that of Blob. The standard's lists of ids are lists here, and `map_node_blob`
-- is an association list.
pub mod Sent
use movid.Base.{
  ℕ, suc, Text, ℤ, pos, to_int32, eq_ℤ, ◌+ℤ◌, Bool, true, false, not, ◌&&◌, Option, none, some,
  List, [], ◌∷◌, ◌++◌, codes, map, if◌then◌else◌, null,
}
use movid.Base.Dict.{Dict, find, insert, int_key}
use movid.Blob.{Container, has_property, integer_at, string_at, lists}
use movid.Float.{Floats}
use movid.Property.{string, integer, Property, new_property, as_string, as_integer}
use movid.Tuio.{Argument, int_arg, float_arg, text_arg, Message, float_at}
use movid.Utils.{◌>>=◌}

pub data Tuio2Format : Type 0 where
  tuio2_unknown tuio2_cursor tuio2_fiducial : Tuio2Format

module _ ⦃F : Floats⦄ where
  open F use {Double}

  pub record Tuio2 : Type 0 where
    pub ip : Property
    pub port : Property
    pub osc : Option (Text × ℤ)
    pub frame : ℤ

  unfoldable pub new_tuio2 : Tuio2
  new_tuio2 = record {
    ip = new_property (string (codes "127.0.0.1")) [];
    port = new_property (integer (pos 3333)) [];
    osc = none;
    frame = pos 0;
  }

  unfoldable pub start_tuio2 : Tuio2 → Tuio2
  start_tuio2 t = record t { osc = some (as_string t.ip, as_integer t.port) }

  unfoldable pub stop_tuio2 : Tuio2 → Tuio2
  stop_tuio2 t = record t { osc = none }

  abbrev pub packet : Text → List Argument → Message
  packet path arguments = record { path = path; arguments = arguments }

  -- What the first loop gathers.
  pub record Relations : Type 0 where
    pub alive : List Argument
    pub nodes : Dict ℤ ℤ
    pub ids_blob : List ℤ
    pub ids_parent : List ℤ

  abbrev pub no_relations : Relations
  no_relations = record { alive = []; nodes = []; ids_blob = []; ids_parent = [] }

  -- The part of the loop about nodes: `map_node_blob` and, with a parent, the two lists.
  unfoldable pub relate : Text → ℤ → Container → Relations → Option Relations
  relate implements id_blob b r =
      if lists (codes "node") implements
      then (do
        node ← integer_at (codes "node_id") b
        let known = record r { nodes = insert node id_blob r.nodes }
        (if has_property (codes "parent_node_id") b
            then (do
              parent ← integer_at (codes "parent_node_id") b
              some (record known {
                ids_blob = r.ids_blob ++ id_blob ∷ [];
                ids_parent = r.ids_parent ++ parent ∷ [];
              }))
            else some known))
      else some r

  unfoldable pub gather_blob : Container → Relations → Option Relations
  gather_blob b r = do
    implements ← string_at (codes "implements") b
    (if lists (codes "tracked") implements
        then (do
          id_blob ← integer_at (codes "blob_id") b
          relate implements id_blob b (record r { alive = r.alive ++ int_arg id_blob ∷ [] }))
        else some r)

  unfoldable pub gather : List Container → Relations → Option Relations
  gather [] r = some r
  gather (b ∷ bs) r = do next ← gather_blob b r; gather bs next

  unfoldable pub pack_size : Container → Option (List Message)
  pack_size b = do
    implements ← string_at (codes "implements") b
    (if lists (codes "size") implements
        then (do
          id ← integer_at (codes "blob_id") b
          x ← float_at (codes "x") b
          y ← float_at (codes "y") b
          width ← float_at (codes "width") b
          height ← float_at (codes "height") b
          some (
              packet (codes "/tuio2/bnd") (
                int_arg id
                ∷ x
                ∷ y
                ∷ float_arg (F.to_float F.zero_double)
                ∷ width
                ∷ height
                ∷ float_arg (F.to_float F.one_double)
                ∷ [])
              ∷ []))
        else some [])

  -- `packBlob`, which returns true
  unfoldable pub pack_blob : List Container → Option (List Message)
  pack_blob [] = some []
  pack_blob (b ∷ bs) = do
    id ← integer_at (codes "blob_id") b
    x ← float_at (codes "x") b
    y ← float_at (codes "y") b
    size ← pack_size b
    rest ← pack_blob bs
    some (
        packet (codes "/tuio2/ptr") (
          int_arg id
          ∷ int_arg (pos 1)
          ∷ int_arg id
          ∷ x
          ∷ y
          ∷ int_arg (pos 0)
          ∷ int_arg (pos 1)
          ∷ [])
        ∷ (size ++ rest))

  -- `packFiducial`, which returns true
  unfoldable pub pack_fiducial : List Container → Option (List Message)
  pack_fiducial [] = some []
  pack_fiducial (b ∷ bs) = do
    id ← integer_at (codes "blob_id") b
    x ← float_at (codes "x") b
    y ← float_at (codes "y") b
    angle ← float_at (codes "angle") b
    rest ← pack_fiducial bs
    some (
        packet (codes "/tuio2/tok") (int_arg id ∷ int_arg id ∷ int_arg id ∷ x ∷ y ∷ angle ∷ [])
        ∷ rest)

  unfoldable pub probe : List Container → Option Tuio2Format
  probe [] = some tuio2_unknown
  probe (b ∷ bs) = do
    implements ← string_at (codes "implements") b
    some (if lists (codes "fiducial") implements then tuio2_fiducial else tuio2_cursor)

  -- The packed blobs, and whether the bundle is sent.
  unfoldable pub pack : Tuio2Format → List Container → Option (List Message × Bool)
  pack tuio2_unknown blobs = some ([], false)
  pack tuio2_cursor blobs = do ms ← pack_blob blobs; some (ms, true)
  pack tuio2_fiducial blobs = do ms ← pack_fiducial blobs; some (ms, true)

  -- `std::list::unique`: an element equal to the one before it goes.
  unfoldable pub unique_after : ℤ → List ℤ → List ℤ
  unique_after z [] = []
  unique_after z (y ∷ ys) = let rest = unique_after y ys in if eq_ℤ z y then rest else y ∷ rest

  unfoldable pub unique : List ℤ → List ℤ
  unique [] = []
  unique (z ∷ zs) = z ∷ unique_after z zs

  -- `map_node_blob[node]`, which is 0 for a node that is not there
  unfoldable pub blob_of : Dict ℤ ℤ → ℤ → ℤ
  blob_of nodes node = elim (find node nodes) [ none ↦ pos 0 | some id ↦ id ]

  unfoldable pub child_of : ℤ → Container → Option (List Argument)
  child_of parent b = do
    implements ← string_at (codes "implements") b
    (if lists (codes "node") implements && has_property (codes "parent_node_id") b
        then (do
          id_parent ← integer_at (codes "parent_node_id") b
          (if eq_ℤ id_parent parent
              then (do id ← integer_at (codes "blob_id") b; some (int_arg id ∷ []))
              else some []))
        else some [])

  unfoldable pub children : ℤ → List Container → Option (List Argument)
  children parent [] = some []
  children parent (b ∷ bs) = do
    child ← child_of parent b
    rest ← children parent bs
    some (child ++ rest)

  unfoldable pub coa_messages : Dict ℤ ℤ → List Container → List ℤ → Option (List Message)
  coa_messages nodes blobs [] = some []
  coa_messages nodes blobs (parent ∷ parents) = do
    linked ← children parent blobs
    rest ← coa_messages nodes blobs parents
    some (
        packet (codes "/tuio2/coa") (int_arg (blob_of nodes parent) ∷ int_arg (pos 0) ∷ linked)
        ∷ rest)

  -- The messages about relations, if there is one.
  unfoldable pub relation_messages : Relations → List Container → Option (List Message)
  relation_messages r blobs = if null r.ids_blob then some [] else (do
    let parents = unique r.ids_parent
    coa ← coa_messages r.nodes blobs parents
    some (
        packet (codes "/tuio2/ala") (
          map (λ parent. int_arg (blob_of r.nodes parent)) parents
          ++ map int_arg (unique r.ids_blob))
        ∷ coa))

  -- `osc->send` if packing was done
  abbrev pub client_ready : Bool → Option (Text × ℤ) → Option Bool
  client_ready false osc = some false
  client_ready true none = none
  client_ready true (some client) = some true

  -- `notifyData` on the blobs of the input, at a time: the module after it, the bundle, and whether
  -- it is sent.
  unfoldable pub notify_blobs2 :
      Tuio2 → Double → List Container → Option (Tuio2 × List Message × Bool)
  notify_blobs2 t time blobs = do
    r ← gather blobs no_relations
    format ← probe blobs
    packed ← pack format blobs
    related ← relation_messages r blobs
    sent ← client_ready (packed.1) t.osc
    some (
      record t { frame = to_int32 (t.frame +ℤ pos 1) },
      packet (codes "/tuio2/frm")
            (int_arg t.frame ∷ int_arg (F.to_int time) ∷ text_arg (codes "movid") ∷ [])
          ∷ packet (codes "/tuio2/alv") r.alive
          ∷ (packed.0 ++ related),
      sent,
    )
