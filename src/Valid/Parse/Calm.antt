-- ===== src/Valid/Parse/Calm.antt =====
-- `parse` of src/moPipeline.cpp on a text without data: its undefined behaviour is not reached.
use movid.Base.{
  ◌≡◌, refl, inl, inr, Text, Bool, true, false, some, List, [], ◌∷◌, ◌==◌, if-both, Bool-cases,
  codes, text_eq, null, not, ◌&&◌, All, arith,
}
use movid.Float.{Floats}
use movid.World.{World}
use movid.Utils.Split.{split}
use movid.Utils.Words.{words}
use movid.Pipeline.Parse.{
  Result, ok, error, fault, ParseState, Outcome, next, stopped, resume, settext_command,
  pipeline_command, command, tokens_line, parse_line, parse_lines, start_state, parse, boundary,
  white_space,
}
use movid.Valid.{IsValid}
use movid.Valid.Parse.{
  Leaves, create_command-Leaves, set_command-Leaves, connect_command-Leaves, config_command-Leaves,
}

-- The line does not begin with the word that begins and ends data.
abbrev is_plain : List Text → Bool
is_plain [] = true
is_plain (first ∷ rest) = not (text_eq first boundary)

abbrev pub IsPlain : Text → Type 0
IsPlain line = is_plain (words white_space line) ≡ true

module _ ⦃F : Floats⦄ where
  -- No data has begun, and nothing is undefined.
  abbrev IsCalm : Outcome → Type 0
  IsCalm (next st) = IsValid st.world × (st.datamode ≡ false)
  IsCalm (stopped r) = Leaves IsValid r

  resume-IsCalm :
      (st : ParseState) (r : Result) → st.datamode ≡ false → Leaves IsValid r → IsCalm (resume st r)
  resume-IsCalm st (ok w) d h = (h, d)
  resume-IsCalm st (error w) d h = h
  resume-IsCalm st fault d h = absurd h

  settext_command-IsCalm :
      (args : List Text) (st : ParseState)
      → IsValid st.world
      → st.datamode ≡ false
      → IsCalm (settext_command args st)
  unfolding settext_command
  settext_command-IsCalm [] st h d = h
  settext_command-IsCalm (a ∷ []) st h d = h
  settext_command-IsCalm (a ∷ b ∷ []) st h d = h
  settext_command-IsCalm (a ∷ b ∷ c ∷ []) st h d = (h, d)
  settext_command-IsCalm (a ∷ b ∷ c ∷ e ∷ args) st h d = h

  pipeline_command-IsCalm :
      (name : Text) (args : List Text) (st : ParseState)
      → IsValid st.world
      → st.datamode ≡ false
      → IsCalm (pipeline_command name args st)
  unfolding pipeline_command
  pipeline_command-IsCalm name args st h d =
      if-both IsCalm (text_eq name (codes "create")) _ _
        (resume-IsCalm st _ d (create_command-Leaves args st.world h))
        (if-both IsCalm (text_eq name (codes "set")) _ _
          (resume-IsCalm st _ d (set_command-Leaves args st.world h))
          (if-both IsCalm (text_eq name (codes "settext")) _ _ (settext_command-IsCalm args st h d)
            (if-both IsCalm (text_eq name (codes "connect")) _ _
              (resume-IsCalm st _ d (connect_command-Leaves args st.world h)) h)))

  command-IsCalm :
      (first : Text) (rest : List Text) (st : ParseState)
      → IsValid st.world
      → st.datamode ≡ false
      → IsCalm (command first rest st)
  unfolding command
  command-IsCalm first [] st h d = h
  command-IsCalm first (second ∷ args) st h d =
      if-both IsCalm (text_eq first (codes "config")) _ _
        (resume-IsCalm st _ d (config_command-Leaves (second ∷ args) st.world h))
        (if-both IsCalm (text_eq first (codes "pipeline")) _ _
          (pipeline_command-IsCalm second args st h d) h)

  tokens_line-IsCalm :
      (line : Text) (tokens : List Text) (st : ParseState)
      → IsValid st.world
      → st.datamode ≡ false
      → is_plain tokens ≡ true
      → IsCalm (tokens_line line tokens st)
  unfolding tokens_line
  tokens_line-IsCalm line [] st h d p = rw d h
  tokens_line-IsCalm line (first ∷ rest) st h d p =
      if-both IsCalm (null rest && not st.datamode) _ _ h
        (elim (Bool-cases (text_eq first boundary)) [
          | inl e ↦ absurd (ground arith)
          | inr e ↦
              rw e (if-both IsCalm (st.datamode) _ _ (h, d) (command-IsCalm first rest st h d))
        ])

  parse_line-IsCalm :
      (line : Text) (st : ParseState)
      → IsValid st.world
      → st.datamode ≡ false
      → IsPlain line
      → IsCalm (parse_line line st)
  unfolding parse_line
  parse_line-IsCalm [] st h d p = (h, d)
  parse_line-IsCalm (c ∷ line) st h d p =
      if-both IsCalm (c == 35) _ _ (h, d)
        (tokens_line-IsCalm (c ∷ line) (words white_space (c ∷ line)) st h d p)

  following-Leaves :
      (f : ParseState → Result) (o : Outcome)
      → IsCalm o
      → ((st : ParseState) → IsValid st.world → st.datamode ≡ false → Leaves IsValid (f st))
      → Leaves IsValid (elim o as (λ x. Result) [ next st ↦ f st | stopped r ↦ r ])
  following-Leaves f (next st) h k = k st h.0 h.1
  following-Leaves f (stopped r) h k = h

  parse_lines-Leaves :
      (lines : List Text) (st : ParseState)
      → IsValid st.world
      → st.datamode ≡ false
      → All IsPlain lines
      → Leaves IsValid (parse_lines lines st)
  unfolding parse_lines
  parse_lines-Leaves [] st h d p = h
  parse_lines-Leaves (line ∷ lines) st h d p =
      following-Leaves (parse_lines lines) (parse_line line st) (parse_line-IsCalm line st h d p.0)
        λ st' h' d'. parse_lines-Leaves lines st' h' d' p.1

  -- In a well-formed daemon, reading a pipeline of which no line begins with the boundary of data
  -- has no undefined behaviour and fails no `assert`, whatever else the text holds, and the
  -- objects stay well formed.
  pub parse_plain :
      (text : Text) (w : World)
      → IsValid w
      → All IsPlain (split (codes "\n") text)
      → Leaves IsValid (parse (some text) w)
  unfolding parse
  parse_plain text w h p = parse_lines-Leaves (split (codes "\n") text) (start_state w) h refl p
