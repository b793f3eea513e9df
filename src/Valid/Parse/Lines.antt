-- ===== src/Valid/Parse/Lines.antt =====
-- Reading a pipeline keeps the daemon's objects well formed: the data and the lines of `parse` of
-- src/moPipeline.cpp.
use movid.Base.{
  refl, Text, Bool, false, Option, none, some, List, [], ◌∷◌, ◌==◌, if-both, codes, text_eq, null,
  not, ◌&&◌, leb, length,
}
use movid.Float.{Floats}
use movid.World.{World}
use movid.Utils.Split.{split}
use movid.Utils.Words.{words}
use movid.Pipeline.Parse.{
  Entry, Result, ok, error, fault, ParseState, Outcome, next, stopped, resume, set_entry,
  keep_entry, set_data, begin_data, end_data, boundary_line, settext_command, pipeline_command,
  command, tokens_line, parse_line, parse_lines, start_state, parse, boundary, white_space,
}
use movid.Valid.{IsValid, IsQuiet-IsValid, same-IsQuiet}
use movid.Valid.Parse.{
  LeavesOr, Leaves-weaken, set_entry-Leaves, create_command-Leaves, set_command-Leaves,
  connect_command-Leaves, config_command-Leaves,
}

module _ ⦃F : Floats⦄ where
  abbrev LeavesOutcome : Type 0 → Outcome → Type 0
  LeavesOutcome D (next st) = IsValid st.world
  LeavesOutcome D (stopped r) = LeavesOr D IsValid r

  resume-Leaves :
      (st : ParseState) (r : Result) → LeavesOr Unit IsValid r → LeavesOutcome Unit (resume st r)
  resume-Leaves st (ok w) h = h
  resume-Leaves st (error w) h = h
  resume-Leaves st fault h = tt

  -- The entries after one that was served, or that failed.
  after_entry-Leaves :
      (es : List Entry) (f : World → Result × List Entry) (r : Result)
      → LeavesOr Unit IsValid r
      → ((w : World) → IsValid w → LeavesOr Unit IsValid ((f w).0))
      → LeavesOr Unit IsValid (
          (elim r as (λ x. Result × List Entry) [
            | ok w ↦ f w
            | error w ↦ (error w, es)
            | fault ↦ (fault, es)
          ]).0)
  after_entry-Leaves es f (ok w) h k = k w h
  after_entry-Leaves es f (error w) h k = h
  after_entry-Leaves es f fault h k = tt

  set_data-Leaves :
      (enough : Bool) (id text : Text) (es : List Entry) (w : World)
      → IsValid w
      → LeavesOr Unit IsValid ((set_data enough id text es w).0)
  unfolding set_data
  set_data-Leaves enough id text [] w h = h
  set_data-Leaves enough id text (e ∷ es) w h =
      if-both (λ (r : Result × List Entry). LeavesOr Unit IsValid (r.0)) (text_eq e.data_id id) _
        (keep_entry e (set_data enough id text es w))
        (after_entry-Leaves es (set_data enough id text es) (set_entry enough text e w)
          (set_entry-Leaves enough text e w h) (set_data-Leaves enough id text es))
        (set_data-Leaves enough id text es w h)

  end_data-Leaves :
      (names : List Text) (st : ParseState)
      → IsValid st.world
      → LeavesOutcome Unit (end_data names st)
  unfolding end_data
  end_data-Leaves names st h =
      let rest = (set_data (leb 2 (length names)) st.current st.oss st.lateset st.world).1 in
      resume-Leaves (record st { datamode = false; oss = []; lateset = rest }) _
        (set_data-Leaves (leb 2 (length names)) st.current st.oss st.lateset st.world h)

  begin_data-Leaves :
      (names : List Text) (st : ParseState)
      → IsValid st.world
      → IsValid ((begin_data names st).world)
  begin_data-Leaves [] st h = h
  begin_data-Leaves (a ∷ []) st h = h
  begin_data-Leaves (a ∷ b ∷ names) st h = h

  begun-Leaves :
      (names : List Text) (o : Outcome)
      → LeavesOutcome Unit o
      → LeavesOutcome Unit (elim o as (λ x. Outcome) [
        | next st ↦ next (begin_data names st)
        | stopped r ↦ stopped r
      ])
  begun-Leaves names (next st) h = begin_data-Leaves names st h
  begun-Leaves names (stopped r) h = h

  boundary_line-Leaves :
      (names : List Text) (st : ParseState)
      → IsValid st.world
      → LeavesOutcome Unit (boundary_line names st)
  unfolding boundary_line
  boundary_line-Leaves names st h =
      if-both (LeavesOutcome Unit) (st.datamode) _ _
        (begun-Leaves names (end_data names st) (end_data-Leaves names st h))
        (begin_data-Leaves names st h)

  settext_command-Leaves :
      (args : List Text) (st : ParseState)
      → IsValid st.world
      → LeavesOutcome Unit (settext_command args st)
  unfolding settext_command
  settext_command-Leaves [] st h = h
  settext_command-Leaves (a ∷ []) st h = h
  settext_command-Leaves (a ∷ b ∷ []) st h = h
  settext_command-Leaves (a ∷ b ∷ c ∷ []) st h = h
  settext_command-Leaves (a ∷ b ∷ c ∷ d ∷ args) st h = h

  pipeline_command-Leaves :
      (name : Text) (args : List Text) (st : ParseState)
      → IsValid st.world
      → LeavesOutcome Unit (pipeline_command name args st)
  unfolding pipeline_command
  pipeline_command-Leaves name args st h =
      if-both (LeavesOutcome Unit) (text_eq name (codes "create")) _ _
        (resume-Leaves st _ (Leaves-weaken IsValid _ (create_command-Leaves args st.world h)))
        (if-both (LeavesOutcome Unit) (text_eq name (codes "set")) _ _
          (resume-Leaves st _ (Leaves-weaken IsValid _ (set_command-Leaves args st.world h)))
          (if-both (LeavesOutcome Unit) (text_eq name (codes "settext")) _ _
            (settext_command-Leaves args st h)
            (if-both (LeavesOutcome Unit) (text_eq name (codes "connect")) _ _
              (resume-Leaves st _
                (Leaves-weaken IsValid _ (connect_command-Leaves args st.world h)))
              h)))

  command-Leaves :
      (first : Text) (rest : List Text) (st : ParseState)
      → IsValid st.world
      → LeavesOutcome Unit (command first rest st)
  unfolding command
  command-Leaves first [] st h = h
  command-Leaves first (second ∷ args) st h =
      if-both (LeavesOutcome Unit) (text_eq first (codes "config")) _ _
        (resume-Leaves st _
          (Leaves-weaken IsValid _ (config_command-Leaves (second ∷ args) st.world h)))
        (if-both (LeavesOutcome Unit) (text_eq first (codes "pipeline")) _ _
          (pipeline_command-Leaves second args st h) h)

  tokens_line-Leaves :
      (line : Text) (tokens : List Text) (st : ParseState)
      → IsValid st.world
      → LeavesOutcome Unit (tokens_line line tokens st)
  unfolding tokens_line
  tokens_line-Leaves line [] st h = if-both (LeavesOutcome Unit) (st.datamode) _ _ tt h
  tokens_line-Leaves line (first ∷ rest) st h =
      if-both (LeavesOutcome Unit) (null rest && not st.datamode) _ _ h (
        if-both (LeavesOutcome Unit) (text_eq first boundary) _ _ (boundary_line-Leaves rest st h)
          (if-both (LeavesOutcome Unit) (st.datamode) _ _ h (command-Leaves first rest st h)))

  parse_line-Leaves :
      (line : Text) (st : ParseState) → IsValid st.world → LeavesOutcome Unit (parse_line line st)
  unfolding parse_line
  parse_line-Leaves [] st h = h
  parse_line-Leaves (c ∷ line) st h =
      if-both (LeavesOutcome Unit) (c == 35) _ _ h
        (tokens_line-Leaves (c ∷ line) (words white_space (c ∷ line)) st h)

  following-Leaves :
      (f : ParseState → Result) (o : Outcome)
      → LeavesOutcome Unit o
      → ((st : ParseState) → IsValid st.world → LeavesOr Unit IsValid (f st))
      → LeavesOr Unit IsValid (elim o as (λ x. Result) [ next st ↦ f st | stopped r ↦ r ])
  following-Leaves f (next st) h k = k st h
  following-Leaves f (stopped r) h k = h

  parse_lines-Leaves :
      (lines : List Text) (st : ParseState)
      → IsValid st.world
      → LeavesOr Unit IsValid (parse_lines lines st)
  unfolding parse_lines
  parse_lines-Leaves [] st h = h
  parse_lines-Leaves (line ∷ lines) st h =
      following-Leaves (parse_lines lines) (parse_line line st) (parse_line-Leaves line st h)
        (parse_lines-Leaves lines)

  -- In a well-formed daemon, reading a pipeline file, whatever its text, leaves the objects well
  -- formed when it succeeds, when it stops at an error after some of the commands, and when the
  -- file does not open. Where its behaviour is undefined nothing is said.
  pub parse-Leaves :
      (text : Option Text) (w : World) → IsValid w → LeavesOr Unit IsValid (parse text w)
  unfolding parse
  parse-Leaves none w h = IsQuiet-IsValid (same-IsQuiet refl refl refl refl refl refl refl) h
  parse-Leaves (some text) w h = parse_lines-Leaves (split (codes "\n") text) (start_state w) h
