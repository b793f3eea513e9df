-- ===== src/Web/File/Safety.antt =====
-- `web_file` of src/movid.cpp serves files of the GUI directory only.
use movid.Base.{
  ℕ, zero, suc, ◌≡◌, ◌≢◌, refl, sym, subst, ◌∙◌, Text, Bool, true, false, List, [], ◌∷◌, ◌++◌,
  codes, take, drop, arith, All, Bool-cases, inl, inr,
}
use mathlib.Core.Bool.{false≢true}
use movid.Utils.Split.{split}
use movid.Utils.{mem}
use movid.Web.File.{
  starts_with, contains, before, file, gui_prefix, file_name, web_file, content_type,
}

abbrev pub dots : Text
dots = 46 ∷ 46 ∷ []

starts-before :
    (d : ℕ) (s : Text) → starts_with dots (before d s) ≡ true → starts_with dots s ≡ true
unfolding starts_with before
starts-before d [] h = h
starts-before d (a ∷ []) h = ground arith
starts-before d (a ∷ b ∷ s) h = ground arith

contains-before : (d : ℕ) (s : Text) → contains dots s ≡ false → contains dots (before d s) ≡ false
unfolding contains before
contains-before d [] h = h
contains-before d (a ∷ s) h = ground (arith, contains-before d s, starts-before d (a ∷ s))

contains-drop : (n : ℕ) (s : Text) → contains dots s ≡ false → contains dots (drop n s) ≡ false
unfolding contains
contains-drop zero s h = h
contains-drop (suc n) [] h = h
contains-drop (suc n) (a ∷ s) h = contains-drop n s (ground arith)

starts-contains : (p s : Text) → starts_with p s ≡ true → contains p s ≡ true
unfolding contains
starts-contains p [] h = h
starts-contains p (a ∷ s) h = rw h

All-later :
    (a : ℕ) (s : Text) (ws : List Text)
    → All (λ w. contains w s ≡ true) ws
    → All (λ w. contains w (a ∷ s) ≡ true) ws
unfolding contains
All-later a s [] h = tt
All-later a s (w ∷ ws) h = (ground (arith, h.0), All-later a s ws h.1)

-- The first piece starts the text, and the others stand in it.
abbrev Pieces : Text → Text → Type 0
Pieces d s =
    (w : Text) × (ws : List Text) × (split d s ≡ w ∷ ws)
    × (starts_with w s ≡ true)
    × All (λ v. contains v s ≡ true) ws

split-Pieces : (d s : Text) → Pieces d s
unfolding split starts_with
split-Pieces d [] = ([], [], refl, refl, tt)
split-Pieces d (a ∷ s) =
    let (w, ws, e, p, q) = split-Pieces d s in
    elim (Bool-cases (mem a d)) [
      | inl sep ↦ ([], w ∷ ws, rw (sep, e), refl, All-later a s (w ∷ ws) (starts-contains w s p, q))
      | inr none_ ↦ (a ∷ w, ws, rw (none_, e), ground (arith, p), All-later a s ws q)
    ]

All-ne-dots :
    (s : Text) (ws : List Text)
    → contains dots s ≡ false
    → All (λ w. contains w s ≡ true) ws
    → All (λ w. w ≢ dots) ws
All-ne-dots s [] h k = tt
All-ne-dots s (w ∷ ws) h k =
    ((λ e. false≢true (sym h ∙ subst (λ v. contains v s ≡ true) e k.0)), All-ne-dots s ws h k.1)

split-ne-dots : (d s : Text) → contains dots s ≡ false → All (λ w. w ≢ dots) (split d s)
split-ne-dots d s h =
    let (w, ws, e, p, q) = split-Pieces d s in
    rw e (All-ne-dots s (w ∷ ws) h (starts-contains w s p, q))

-- What the request asks for below the directory, without its query.
abbrev pub local_path : Text → Text
local_path uri = drop 5 (before 63 uri)

file_name-local :
    (guidir uri : Text) → file_name guidir uri ≡ take 255 (guidir ++ (47 ∷ local_path uri))
unfolding file_name
file_name-local guidir uri = refl

opened :
    (guidir : Text) (exists : Text → Bool) (uri type name : Text)
    → web_file guidir exists uri ≡ file type name
    → (name ≡ file_name guidir uri)
      × (contains dots uri ≡ false)
      × (exists name ≡ true)
      × (type ≡ content_type name)
      × (starts_with gui_prefix uri ≡ true)
unfolding web_file
opened guidir exists uri type name h = ground arith

-- A file that is served is one that exists, under the GUI directory: its name is that of the
-- directory, a slash and a path of which no component is `..`, cut at 255 characters. The request
-- began with `/gui/`, and the content type is that of the name.
pub web_file_safe :
    (guidir : Text) (exists : Text → Bool) (uri type name : Text)
    → web_file guidir exists uri ≡ file type name
    → (path : Text) × (name ≡ take 255 (guidir ++ (47 ∷ path)))
      × All (λ w. w ≢ dots) (split (codes "/") path)
      × (exists name ≡ true)
      × (type ≡ content_type name)
      × (starts_with gui_prefix uri ≡ true)
web_file_safe guidir exists uri type name h =
    let (a, b, c, d, e) = opened guidir exists uri type name h in
    (
      local_path uri,
      a ∙ file_name-local guidir uri,
      split-ne-dots (codes "/") (local_path uri)
          (contains-drop 5 (before 63 uri) (contains-before 63 uri b)),
      c,
      d,
      e,
    )
