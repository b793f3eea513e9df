-- ===== src/Property/Convert.antt =====
-- The conversions of src/moProperty.cpp: which are total, and which texts read back.
use movid.Base.{
  ℕ, ◌≡◌, refl, ap, sym, ◌∙◌, Text, Bool, false, some, List, [], ◌∷◌, ◌++◌, codes, arith, All, any,
}
use mathlib.Core.List.{append_assoc}
use movid.Float.{Floats}
use movid.Utils.{tokenize, mem}
use movid.Utils.Split.{split, tokenize-split, IsFree}
use movid.Property.{
  Point, Value, bool, string, integer, double, pointlist, print_points, read_points, add_point,
  convert_to_point_list, convert_to_string,
}

module _ ⦃F : Floats⦄ where
  pub read_points_total : (ws : List Text) → (l : List Point) × (read_points ws ≡ some l)
  unfolding read_points
  read_points_total [] = ([], refl)
  read_points_total (w ∷ ws) =
      let (l, e) = read_points_total ws in
      (add_point (split (codes ",") w) l, rw (tokenize-split w 44, e))

  -- Reading a point list ends and never throws.
  pub convert_to_point_list_total :
      (v : Value) → (l : List Point) × (convert_to_point_list v ≡ some l)
  unfolding convert_to_point_list
  convert_to_point_list_total (string s) =
      let (l, e) = read_points_total (split (codes ";") s) in (l, rw (tokenize-split s 59) e)
  convert_to_point_list_total (pointlist l) = (l, refl)
  convert_to_point_list_total (bool b) = ([], refl)
  convert_to_point_list_total (integer z) = ([], refl)
  convert_to_point_list_total (double d) = ([], refl)

  -- A coordinate whose printed form reads back, and holds no separator.
  pub record IsStable (d : F.Double) : Type 0 where
    pub reads_back : F.atof (F.print_stream d) ≡ d
    pub no_comma : IsFree (codes ",") (F.print_stream d)
    pub no_semicolon : IsFree (codes ";") (F.print_stream d)

  abbrev pub IsStablePoint : Point → Type 0
  IsStablePoint p = IsStable p.x × IsStable p.y

pub split_free :
    (d : ℕ) (w s : Text) → IsFree (d ∷ []) w → split (d ∷ []) (w ++ (d ∷ s)) ≡ w ∷ split (d ∷ []) s
unfolding split mem
split_free d [] s h = ground arith
split_free d (c ∷ w) s h = ground (arith, split_free d w s)

pub split_last : (d : ℕ) (w : Text) → IsFree (d ∷ []) w → split (d ∷ []) w ≡ w ∷ []
unfolding split mem
split_last d [] h = refl
split_last d (c ∷ w) h = ground (arith, split_last d w)

module _ ⦃F : Floats⦄ where
  tokenize_point :
      (p : Point)
      → IsStablePoint p
      → tokenize (F.print_stream p.x ++ (codes "," ++ F.print_stream p.y)) (codes ",")
        ≡ some (F.print_stream p.x ∷ F.print_stream p.y ∷ [])
  tokenize_point p h =
      tokenize-split _ 44
      ∙ ap some (
          split_free 44 (F.print_stream p.x) (F.print_stream p.y) h.0.no_comma
          ∙ ap (λ ws. F.print_stream p.x ∷ ws) (split_last 44 (F.print_stream p.y) h.1.no_comma))

  abbrev point_text : Point → Text
  point_text p = F.print_stream p.x ++ (codes "," ++ F.print_stream p.y)

  any_append :
      {A : Type 0} (f : A → Bool) (xs ys : List A)
      → any f xs ≡ false
      → any f ys ≡ false
      → any f (xs ++ ys) ≡ false
  any_append f [] ys h k = k
  any_append f (x ∷ xs) ys h k = ground (arith, any_append f xs ys)

  point_text-IsFree : (p : Point) → IsStablePoint p → IsFree (codes ";") (point_text p)
  point_text-IsFree p h =
      any_append _ (F.print_stream p.x) _ h.0.no_semicolon (unfold mem in h.1.no_semicolon)

  split-print_points :
      (p : Point) (l : List Point)
      → IsStablePoint p
      → split (codes ";") (print_points (p ∷ l)) ≡ point_text p ∷ split (codes ";") (print_points l)
  unfolding print_points
  split-print_points p l h =
      ap (split (codes ";"))
        (sym (append_assoc (F.print_stream p.x) (44 ∷ F.print_stream p.y) (59 ∷ print_points l)))
      ∙ split_free 59 (point_text p) (print_points l) (point_text-IsFree p h)

  read_points_cons :
      (p : Point) (l : List Point)
      → IsStablePoint p
      → (ws : List Text) → read_points ws ≡ some l
      → read_points (point_text p ∷ ws) ≡ some (p ∷ l)
  unfolding read_points
  read_points_cons p l h ws e = rw (tokenize_point p h, e, h.0.reads_back, h.1.reads_back)

  read_points-print_points :
      (l : List Point)
      → All IsStablePoint l
      → read_points (split (codes ";") (print_points l)) ≡ some l
  read_points-print_points [] h = unfold print_points split read_points tokenize in refl
  read_points-print_points (p ∷ l) h =
      rw (split-print_points p l h.0) (read_points_cons p l h.0 _ (read_points-print_points l h.1))

  -- A printed point list reads back as the same points, when the printed form of each coordinate
  -- reads back and holds neither separator.
  pub convert_to_point_list-print :
      (l : List Point)
      → All IsStablePoint l
      → convert_to_point_list (string (convert_to_string (pointlist l))) ≡ some l
  unfolding convert_to_point_list convert_to_string
  convert_to_point_list-print l h =
      rw (tokenize-split (print_points l) 59) (read_points-print_points l h)
