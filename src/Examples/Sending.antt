-- ===== src/Examples/Sending.antt =====
-- The theorems on the TUIO modules, on a tracked blob of the blob finder, at (5, 6).
use movid.Base.{
  ℤ, ◌≢◌, true, pos, to_int32, ◌+ℤ◌, Text, refl, ◌≡◌, not, null, some, List, [], ◌∷◌, ◌++◌, codes,
  map, All, text_eq,
}
use movid.Base.Dict.{find}
use movid.Blob.{Container, integer_at, string_at, double_at, lists}
use movid.Property.{
  string, integer, Property, new_property, convert_to_integer, convert_to_string, convert_to_double,
}
use movid.Utils.{
  mem, find_first_of, find_first_not_of, find_of_at, find_not_of_at, piece, in_list, in_list_loop,
}
use movid.Tuio.{
  Message, new_tuio, start_tuio, tuio_2dcur, osc_path, int_arg, text_arg, osc_message, notify_blobs,
  probe_type,
}
use movid.Tuio.Frames.{IsPlaced, IsSized, session_ids, session, notify_blobs_frame}
use movid.Tuio2.{probe, tuio2_fiducial, new_tuio2, start_tuio2, packet, notify_blobs2}
use movid.Tuio2.Sent.{notify_blobs2_sent}
use movid.Tuio2.Sent.Packed.{IsComplete}
use movid.Examples.Objects.{whole}

abbrev number : ℤ → Property
number z = new_property (integer z) []

abbrev blob : Container
blob =
    (codes "blob_id", number (pos 7))
    ∷ (codes "height", number (pos 2))
    ∷ (codes "implements", new_property (string (codes "pos,size,tracked")) [])
    ∷ (codes "width", number (pos 2))
    ∷ (codes "x", number (pos 5))
    ∷ (codes "y", number (pos 6))
    ∷ []

unfoldable blob-IsPlaced : IsPlaced blob
unfolding find text_eq integer_at string_at double_at new_property convert_to_integer
    convert_to_string convert_to_double in_list in_list_loop find_of_at find_not_of_at find_first_of
    find_first_not_of mem piece
blob-IsPlaced = record {
  words = codes "pos,size,tracked";
  id = pos 7;
  x = 5;
  y = 6;
  says = refl;
  tracked = refl;
  placed = refl;
  has_id = refl;
  has_x = refl;
  has_y = refl;
}

blob-IsSized : IsSized blob
unfolding find text_eq double_at new_property convert_to_double
blob-IsSized = record { width = 2; height = 2; has_width = refl; has_height = refl }

-- The blob finder says neither node nor fiducial.
no_node : lists (codes "node") (codes "pos,size,tracked") ≢ true
unfolding in_list in_list_loop find_of_at find_not_of_at find_first_of find_first_not_of mem piece
    text_eq
no_node e = cc

blob-cursor : probe (blob ∷ []) ≢ some tuio2_fiducial
unfolding probe string_at find text_eq new_property convert_to_string in_list in_list_loop
    find_of_at find_not_of_at find_first_of find_first_not_of mem piece
blob-cursor e = cc

blob-IsComplete : IsComplete blob
blob-IsComplete = record {
  placed = blob-IsPlaced;
  sized = λ e. blob-IsSized;
  node = λ e. absurd (no_node (unfold blob-IsPlaced in e));
}

abbrev client : Text × ℤ
client = (codes "127.0.0.1", pos 3333)

notify_blobs_frame_example :
    (sets : List Message) × (notify_blobs (start_tuio new_tuio) (blob ∷ [])
      ≡ some (
        record (start_tuio new_tuio) {
          type = tuio_2dcur;
          fseq = to_int32 ((start_tuio new_tuio).fseq +ℤ pos 1);
        },
        osc_message tuio_2dcur (codes "alive") (session_ids (blob ∷ []))
            ∷ (sets
                ++ osc_message tuio_2dcur (codes "fseq") (int_arg (start_tuio new_tuio).fseq ∷ [])
                  ∷ []),
      ))
    × (map session sets ≡ map some (session_ids (blob ∷ [])))
    × All (λ m. m.path ≡ osc_path tuio_2dcur) sets
notify_blobs_frame_example =
    notify_blobs_frame (start_tuio new_tuio) tuio_2dcur client (blob ∷ [])
      (unfold start_tuio new_tuio new_property convert_to_integer convert_to_string in refl)
      (unfold start_tuio new_tuio probe_type string_at find text_eq new_property convert_to_string
          in_list in_list_loop find_of_at find_not_of_at find_first_of find_first_not_of mem
          piece in
        refl)
      ((blob-IsPlaced, blob-IsSized), tt)

notify_blobs2_sent_example :
    (ms : List Message) × (notify_blobs2 (start_tuio2 new_tuio2) 100 (blob ∷ [])
      ≡ some (
        record (start_tuio2 new_tuio2) {
          frame = to_int32 ((start_tuio2 new_tuio2).frame +ℤ pos 1);
        },
        packet (codes "/tuio2/frm") (
              int_arg (start_tuio2 new_tuio2).frame
              ∷ int_arg (pos 100)
              ∷ text_arg (codes "movid")
              ∷ [])
            ∷ packet (codes "/tuio2/alv") (session_ids (blob ∷ []))
            ∷ ms,
        not (null (blob ∷ [])),
      ))
notify_blobs2_sent_example =
    notify_blobs2_sent (start_tuio2 new_tuio2) 100 client (blob ∷ [])
      (unfold start_tuio2 new_tuio2 new_property convert_to_integer convert_to_string in refl)
      (blob-IsComplete, tt) (λ e. absurd (blob-cursor e))
