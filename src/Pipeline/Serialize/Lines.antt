-- ===== src/Pipeline/Serialize/Lines.antt =====
-- The lines that `serializeCreation` of src/moModule.cpp writes, read back by `parse` of
-- src/moPipeline.cpp.
use movid.Base.{
  ℕ, ◌≡◌, ◌≢◌, refl, ap, ◌∙◌, Text, true, false, List, [], ◌∷◌, ◌++◌, codes, text_eq, if◌then◌else◌,
  arith, All,
}
use movid.Float.{Floats}
use movid.Utils.{mem}
use movid.Utils.Split.{split, IsFree}
use movid.Utils.Words.{words, nonempty}
use movid.World.{World}
use movid.Module.Properties.{id_of}
use movid.Property.{Property, as_string}
use movid.Pipeline.Parse.{
  white_space, ParseState, resume, run_create, run_set, create_command, set_command,
  pipeline_command, command, tokens_line, parse_line,
}
use movid.Pipeline.Serialize.{spaced, create_line, creation_line}

split_word :
    (d w : Text) (c : ℕ) (s : Text)
    → IsFree d w
    → mem c d ≡ true
    → split d (w ++ (c ∷ s)) ≡ w ∷ split d s
unfolding split
split_word d [] c s h e = ground arith
split_word d (x ∷ w) c s h e = ground (arith, split_word d w c s)

split_end : (d w : Text) → IsFree d w → split d w ≡ w ∷ []
unfolding split
split_end d [] h = refl
split_end d (x ∷ w) h = ground (arith, split_end d w)

-- What a line of the file can carry as one word.
abbrev pub IsWord : Text → Type 0
IsWord w = IsFree white_space w × (w ≢ [])

nonempty_word : (w : Text) (ws : List Text) → w ≢ [] → nonempty (w ∷ ws) ≡ w ∷ nonempty ws
nonempty_word [] ws h = absurd (h refl)
nonempty_word (c ∷ w) ws h = refl

words-spaced : (ws : List Text) → All IsWord ws → words white_space (spaced ws) ≡ ws
unfolding words
words-spaced [] h = unfold split in refl
words-spaced (w ∷ []) h = ap nonempty (split_end white_space w h.0.0) ∙ nonempty_word w [] h.0.1
words-spaced (w ∷ v ∷ ws) h =
    ap nonempty (split_word white_space w 32 (spaced (v ∷ ws)) h.0.0 (unfold mem in refl))
    ∙ nonempty_word w (split white_space (spaced (v ∷ ws))) h.0.1
    ∙ ap (λ r. w ∷ r) (words-spaced (v ∷ ws) h.1)

pipeline-IsWord : IsWord (codes "pipeline")
unfolding mem
pipeline-IsWord = (refl, λ e. cc)

set-IsWord : IsWord (codes "set")
unfolding mem
set-IsWord = (refl, λ e. cc)

create-IsWord : IsWord (codes "create")
unfolding mem
create-IsWord = (refl, λ e. cc)

module _ ⦃F : Floats⦄ where
  tokens_pipeline :
      (text name : Text) (args : List Text) (st : ParseState)
      → st.datamode ≡ false
      → tokens_line text (codes "pipeline" ∷ name ∷ args) st ≡ pipeline_command name args st
  unfolding tokens_line command text_eq
  tokens_pipeline text name args st d = rw d refl

  -- A line of words that begins with `pipeline`, outside data.
  parse_line-pipeline :
      (name : Text) (args : List Text) (st : ParseState)
      → All IsWord (codes "pipeline" ∷ name ∷ args)
      → st.datamode ≡ false
      → parse_line (spaced (codes "pipeline" ∷ name ∷ args)) st ≡ pipeline_command name args st
  unfolding parse_line
  parse_line-pipeline name args st h d =
      let text = spaced (codes "pipeline" ∷ name ∷ args) in
      ap (λ ws. tokens_line text ws st) (words-spaced (codes "pipeline" ∷ name ∷ args) h)
      ∙ tokens_pipeline text name args st d

  set_runs :
      (id key value : Text) (st : ParseState)
      → pipeline_command (codes "set") (id ∷ key ∷ value ∷ []) st
        ≡ resume st (run_set id key value st.world)
  unfolding pipeline_command set_command text_eq
  set_runs id key value st = refl

  create_runs :
      (class id : Text) (st : ParseState)
      → pipeline_command (codes "create") (class ∷ id ∷ []) st
        ≡ resume st (run_create class id st.world)
  unfolding pipeline_command create_command text_eq
  create_runs class id st = refl

  -- Outside data, the line that saves a property that is no text runs `set` on the same module,
  -- property and printed value when it is read, if these are words: without white space, not empty.
  pub parse_line-creation_line :
      (id key : Text) (p : Property) (st : ParseState)
      → IsWord id
      → IsWord key
      → IsWord (as_string p)
      → p.is_text ≡ false
      → st.datamode ≡ false
      → parse_line (creation_line id key p) st ≡ resume st (run_set id key (as_string p) st.world)
  unfolding creation_line
  parse_line-creation_line id key p st a b c t d =
      ap
        (λ e.
          parse_line
            (if e
              then spaced (codes "pipeline" ∷ codes "settext" ∷ id ∷ key ∷ (id ++ (95 ∷ key)) ∷ [])
              else spaced (codes "pipeline" ∷ codes "set" ∷ id ∷ key ∷ as_string p ∷ []))
            st)
        t
      ∙ parse_line-pipeline (codes "set") (id ∷ key ∷ as_string p ∷ []) st
          (pipeline-IsWord, (set-IsWord, (a, (b, (c, tt))))) d
      ∙ set_runs id key (as_string p) st

  -- Outside data, the line that `serializeCreation` writes first for a module runs `create` when it
  -- is read, of the module's class and for its id, if both are words.
  pub parse_line-create :
      (m : ℕ) (w : World) (st : ParseState)
      → IsWord (w.modules m).name
      → IsWord (id_of m w)
      → st.datamode ≡ false
      → parse_line (create_line m w) st
        ≡ resume st (run_create (w.modules m).name (id_of m w) st.world)
  unfolding create_line
  parse_line-create m w st a b d =
      let class = (w.modules m).name in
      let id = id_of m w in
      parse_line-pipeline (codes "create") (class ∷ id ∷ []) st
        (pipeline-IsWord, (create-IsWord, (a, (b, tt)))) d
      ∙ create_runs class id st
