-- ===== src/Web/File.antt =====
-- src/movid.cpp: `web_file` and `web_index`, the requests outside the API.
pub mod Safety
use movid.Base.{
  ℕ, zero, suc, ◌-◌, Text, Bool, true, false, Option, none, some, List, [], ◌∷◌, ◌++◌,
  if◌then◌else◌, codes, text_eq, length, take, drop, ◌==◌, ◌||◌, ◌&&◌, not, ltb,
}

unfoldable pub starts_with : Text → Text → Bool
starts_with [] s = true
starts_with (c ∷ p) [] = false
starts_with (c ∷ p) (d ∷ s) = c == d && starts_with p s

-- `strstr(s, p) != NULL`
unfoldable pub contains : Text → Text → Bool
contains p [] = starts_with p []
contains p (c ∷ s) = starts_with p (c ∷ s) || contains p s

-- `strsep(&s, "?")` returns the text up to the first separator.
unfoldable pub before : ℕ → Text → Text
before d [] = []
before d (c ∷ s) = let rest = before d s in if c == d then [] else c ∷ rest

pub data FileReply : Type 0 where
  not_found : FileReply
  security_error : FileReply
  -- The content type and the file
  file : Text → Text → FileReply

abbrev pub gui_prefix : Text
gui_prefix = codes "/gui/"

-- `snprintf` into 256 bytes keeps 255 characters.
unfoldable pub file_name : Text → Text → Text
unfolding before
file_name guidir uri = take 255 (guidir ++ (47 ∷ drop 5 (before 63 uri)))

-- `strncmp(filename + strlen(filename) - n, suffix, n) == 0`
unfoldable pub ends_with : Text → Text → Bool
ends_with suffix name = text_eq (drop (length name - length suffix) name) suffix

unfoldable pub content_type : Text → Text
unfolding ends_with
content_type name =
    if ends_with (codes "js") name
    then codes "application/javascript"
    else if ends_with (codes "css") name
    then codes "text/css"
    else if ends_with (codes "png") name
    then codes "image/png"
    else if ends_with (codes "swf") name
    then codes "application/x-shockwave-flash"
    else codes "text/html"

-- `exists` says which files can be opened; reading them is left out.
unfoldable pub web_file : Text → (Text → Bool) → Text → FileReply
unfolding starts_with contains file_name content_type
web_file guidir exists uri =
    if not (starts_with gui_prefix uri)
    then not_found
    else if contains (codes "..") uri
    then security_error
    else if exists (file_name guidir uri)
    then file (content_type (file_name guidir uri)) (file_name guidir uri)
    else not_found
