-- ===== src/Pipeline/Parse.antt =====
-- `parse` of src/moPipeline.cpp: the text of a pipeline, line by line. Errors are logged, so what a
-- log message evaluates is part of the model.
use movid.Base.{
  ℕ, Text, Bool, true, false, not, Option, none, some, List, [], ◌∷◌, ◌++◌, if◌then◌else◌, codes,
  text_eq, null, length, leb, ◌&&◌, ◌==◌,
}
use movid.Float.{Floats}
use movid.Number.{atoi}
use movid.Utils.Split.{split}
use movid.Utils.Words.{words}
use movid.World.{World}
use movid.Module.Ports.{set_input, get_output}
use movid.Module.Properties.{
  have_error, get_last_error, set_property, set_property_text, set_property_read_only,
}
use movid.Factory.{create}
use movid.Pipeline.{get_module_by_id, add_element}

-- `isspace` of the C locale: the separators of `istream_iterator<std::string>`
abbrev pub white_space : Text
white_space = 32 ∷ 9 ∷ 10 ∷ 11 ∷ 12 ∷ 13 ∷ []

-- PIPELINE_BOUNDARY
abbrev pub boundary : Text
boundary = codes "=============================="

-- A `settext` command: the property of the module waits for the data of that name.
pub record Entry : Type 0 where
  pub module_id : Text
  pub key : Text
  pub data_id : Text

module _ ⦃F : Floats⦄ where
  -- `true`, `false`, and undefined behaviour or a failed `assert`
  pub data Result : Type 0 where
    ok : World → Result
    error : World → Result
    fault : Result

  infixl 5 ◌>>=◌
  abbrev pub ◌>>=◌ : Result → (World → Result) → Result
  ok w >>= f = f w
  error w >>= f = error w
  fault >>= f = fault

  abbrev pub or_fault : Option World → Result
  or_fault none = fault
  or_fault (some w) = ok w

  -- A module error ends the parse, and its message is taken for the log.
  unfoldable pub check_error : ℕ → World → Result
  check_error m w = if have_error m w then error (get_last_error m w).1 else ok w

  -- What `create` does with the new module.
  unfoldable pub name_module : Text → ℕ → World → Result
  unfolding check_error
  name_module id m w = do
    w1 ← check_error m w
    w2 ← or_fault (set_property m (codes "id") id w1)
    w3 ← check_error m (set_property_read_only m (codes "id") w2)
    ok (add_element m w3)

  unfoldable pub run_create : Text → Text → World → Result
  unfolding name_module
  run_create class id w = elim (get_module_by_id id w) [
    | some _ ↦ error w
    | none ↦ elim (create class w) [ none ↦ error w | some (m, w') ↦ name_module id m w' ]
  ]

  unfoldable pub run_set : Text → Text → Text → World → Result
  unfolding check_error
  run_set id key value w = elim (get_module_by_id id w) [
    | none ↦ error w
    | some m ↦ or_fault (set_property m key value w) >>= check_error m
  ]

  unfoldable pub run_connect : Text → Text → Text → Text → World → Result
  unfolding check_error
  run_connect out_id out_index in_id in_index w = elim (get_module_by_id out_id w) [
    | none ↦ error w
    | some m1 ↦ elim (get_module_by_id in_id w) [
      | none ↦ error w
      | some m2 ↦
          check_error m1 (set_input m2 (atoi in_index) (get_output m1 (atoi out_index) w) w)
          >>= check_error m2
    ]
  ]

  unfoldable pub create_command : List Text → World → Result
  unfolding run_create
  create_command (class ∷ id ∷ []) w = run_create class id w
  create_command _ w = error w

  unfoldable pub set_command : List Text → World → Result
  unfolding run_set
  set_command (id ∷ key ∷ []) w = run_set id key [] w
  set_command (id ∷ key ∷ value ∷ []) w = run_set id key value w
  set_command _ w = error w

  unfoldable pub connect_command : List Text → World → Result
  unfolding run_connect
  connect_command (out_id ∷ out_index ∷ in_id ∷ in_index ∷ []) w =
      run_connect out_id out_index in_id in_index w
  connect_command _ w = error w

  unfoldable pub config_command : List Text → World → Result
  config_command (key ∷ value ∷ more) w =
      if text_eq key (codes "delay") then ok (record w { delay = atoi value }) else ok w
  config_command _ w = error w

  -- The variables of the loop over the lines.
  pub record ParseState : Type 0 where
    pub world : World
    pub datamode : Bool
    pub current : Text
    pub oss : Text
    pub lateset : List Entry

  pub data Outcome : Type 0 where
    next : ParseState → Outcome
    stopped : Result → Outcome

  abbrev pub resume : ParseState → Result → Outcome
  resume st (ok w) = next (record st { world = w })
  resume st (error w) = stopped (error w)
  resume st fault = stopped fault

  -- One property takes the data. The message for a missing module reads a third token of the line,
  -- which `enough` says is there.
  unfoldable pub set_entry : Bool → Text → Entry → World → Result
  set_entry enough text e w = elim (get_module_by_id e.module_id w) [
    | none ↦ if enough then error w else fault
    | some m ↦ (do
      w' ← or_fault (set_property m e.key text w)
      check_error m (set_property_text m e.key w'))
  ]

  abbrev pub keep_entry : Entry → Result × List Entry → Result × List Entry
  keep_entry e (r, rest) = (r, e ∷ rest)

  -- Each property that waits for the data is set, in order, and the others keep waiting. The loop of
  -- the source starts again after each one, at entries that it has passed over already.
  unfoldable pub set_data : Bool → Text → Text → List Entry → World → Result × List Entry
  unfolding set_entry
  set_data enough id text [] w = (ok w, [])
  set_data enough id text (e ∷ es) w =
      let hit : Result × List Entry = elim (set_entry enough text e w) [
        | ok w' ↦ set_data enough id text es w'
        | error w' ↦ (error w', es)
        | fault ↦ (fault, es)
      ] in
      let miss = keep_entry e (set_data enough id text es w) in
      if text_eq e.data_id id then hit else miss

  -- After a boundary, a name starts the data of that name.
  abbrev pub begin_data : List Text → ParseState → ParseState
  begin_data (id ∷ []) st = record st { datamode = true; current = id }
  begin_data _ st = st

  unfoldable pub end_data : List Text → ParseState → Outcome
  unfolding set_data
  end_data names st =
      let (r, rest) = set_data (leb 2 (length names)) st.current st.oss st.lateset st.world in
      resume (record st { datamode = false; oss = []; lateset = rest }) r

  unfoldable pub boundary_line : List Text → ParseState → Outcome
  unfolding end_data
  boundary_line names st =
      if st.datamode
      then elim (end_data names st) [
        | next st' ↦ next (begin_data names st')
        | stopped r ↦ stopped r
      ]
      else next (begin_data names st)

  unfoldable pub settext_command : List Text → ParseState → Outcome
  settext_command (id ∷ key ∷ name ∷ []) st =
      let e : Entry = record { module_id = id; key = key; data_id = name } in
      next (record st { lateset = st.lateset ++ e ∷ [] })
  settext_command _ st = stopped (error st.world)

  unfoldable pub pipeline_command : Text → List Text → ParseState → Outcome
  unfolding create_command set_command settext_command connect_command
  pipeline_command name args st =
      if text_eq name (codes "create")
      then resume st (create_command args st.world)
      else if text_eq name (codes "set")
      then resume st (set_command args st.world)
      else if text_eq name (codes "settext")
      then settext_command args st
      else if text_eq name (codes "connect")
      then resume st (connect_command args st.world)
      else stopped (error st.world)

  unfoldable pub command : Text → List Text → ParseState → Outcome
  unfolding config_command pipeline_command
  command first [] st = stopped (error st.world)
  command first (second ∷ args) st =
      if text_eq first (codes "config")
      then resume st (config_command (second ∷ args) st.world)
      else if text_eq first (codes "pipeline")
      then pipeline_command second args st
      else stopped (error st.world)

  -- The tokens of a line that is not left out. In data mode a line of spaces has none, and
  -- `tokens[0]` is read all the same.
  unfoldable pub tokens_line : Text → List Text → ParseState → Outcome
  unfolding boundary_line command
  tokens_line line [] st = if st.datamode then stopped fault else stopped (error st.world)
  tokens_line line (first ∷ rest) st =
      if null rest && not st.datamode
      then stopped (error st.world)
      else if text_eq first boundary
      then boundary_line rest st
      else if st.datamode
      then next (record st { oss = st.oss ++ (line ++ 10 ∷ []) })
      else command first rest st

  unfoldable pub parse_line : Text → ParseState → Outcome
  unfolding tokens_line
  parse_line [] st = next st
  parse_line (c ∷ line) st =
      if c == 35 then next st else tokens_line (c ∷ line) (words white_space (c ∷ line)) st

  unfoldable pub parse_lines : List Text → ParseState → Result
  unfolding parse_line
  parse_lines [] st = ok st.world
  parse_lines (line ∷ lines) st = elim (parse_line line st) [
    | next st' ↦ parse_lines lines st'
    | stopped r ↦ r
  ]

  abbrev pub start_state : World → ParseState
  start_state w = record { world = w; datamode = false; current = []; oss = []; lateset = [] }

  -- `getline` up to the end of the file: the pieces between the newlines. No file is `none`.
  unfoldable pub parse : Option Text → World → Result
  unfolding parse_lines
  parse none w = error (record w { last_internal_error = codes "unable to open file" })
  parse (some text) w = parse_lines (split (codes "\n") text) (start_state w)
