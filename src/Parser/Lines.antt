-- ===== src/Parser/Lines.antt =====
-- src/parser.c: `parse_list_line` and `parse_cfg`, on top of the readers of a line's parameters.
use miau.Prelude.{
  ℕ, zero, suc, ◌-◌, Bool, true, false, not, ◌&&◌, ◌||◌, Option, some, none, List, [], ◌∷◌, ◌++◌,
  Text, head0, ltb, ◌==◌, if◌then◌else◌, take, get_or, length,
}
use miau.Prelude.Int.{pos}
use miau.Perm.{add_perm}
use miau.Channels.{channel_find, channel_add, list_passive}
use miau.Parser.{
  Parser, ListKind, cfg_invalid, cfg_nolist, cfg_nicknames, cfg_servers, cfg_connhosts, cfg_ignore,
  cfg_automodelist, cfg_chanlog, cfg_channels, cfg_onconnect, trim, line_mode, is_empty, last0,
  parse_error, assign_int, assign_boolean,
}
use miau.Parser.Settings.{parse_param}
use miau.Parser.Lists.{
  bad_line, scanned, scan, max_params, param, or_zero, add_server, log_type, chanlog_add_rule,
  onconnect_add,
}

-- Whether the line was right, and the list that its entry goes to.
pub data Target : Type 0 where
  wrong right : Target
  permlist : ListKind → Target

unfoldable pub server_line : Parser → List (Option Text) → Parser
unfolding assign_int add_server
server_line st params =
    let (st0, t0) = assign_int st (param params 1) (pos 0) in
    let (st1, t1) = assign_int st0 (param params 3) (pos 0) in
    add_server st1 (param params 0) (or_zero t0) (param params 2) (or_zero t1)

-- A mode has a letter and a colon; the second character is read where there may be none.
unfoldable pub automode_line : Option Text → Option Target
automode_line none = none
automode_line (some []) = none
automode_line (some (c ∷ s)) = some (if head0 s == b':' then permlist cfg_automodelist else wrong)

unfoldable pub chanlog_line : Parser → List (Option Text) → Option (Parser × Target)
unfolding log_type chanlog_add_rule
chanlog_line st params = elim (param params 1) [
  | none ↦ none
  | some letters ↦
      let (st', t) = log_type st 0 letters in
      elim (chanlog_add_rule st' (param params 0) (param params 2) t) [
        | none ↦ none
        | some st'' ↦ some (st'', right)
      ]
]

unfoldable pub channel_line : Parser → List (Option Text) → Parser × Target
unfolding channel_find channel_add
channel_line st params = if not st.virgin then (st, right) else elim (param params 0) [
  | none ↦ (st, wrong)
  | some name ↦
      if is_empty name || head0 name == b'!' && get_or name 1 0 == b'#'
      then (st, wrong)
      else elim (channel_find st.channels name list_passive) [
        | some c ↦ (st, wrong)
        | none ↦ (
          record st { channels = (channel_add st.channels name (param params 1) list_passive).1 },
          right,
        )
      ]
]

unfoldable pub onconnect_line : Parser → List (Option Text) → Option (Parser × Target)
unfolding onconnect_add
onconnect_line st params = elim (param params 0) [
  | none ↦ none
  | some type ↦
      let c = head0 type in
      if c == b'p' || c == b'n' || c == b'r'
      then elim (onconnect_add st c (param params 1) (param params 2)) [
        | none ↦ none
        | some st' ↦ some (st', right)
      ]
      else some (st, wrong)
]

abbrev pub targeted : Parser → Option Target → Option (Parser × Target)
targeted st none = none
targeted st (some t) = some (st, t)

-- The switch over the list that the line stands in.
unfoldable pub process : Parser → ListKind → List (Option Text) → Option (Parser × Target)
unfolding server_line automode_line chanlog_line channel_line onconnect_line
process st cfg_invalid params = some (st, right)
process st cfg_nolist params = some (st, wrong)
process st cfg_nicknames params = some (
    if length params == 1
    then (record st { nicks = st.nicks ++ param params 0 ∷ [] }, right)
    else (st, wrong))
process st cfg_servers params =
    some (if ltb 4 (length params) then (st, wrong) else (server_line st params, right))
process st cfg_connhosts params =
    some (st, if ltb 2 (length params) then wrong else permlist cfg_connhosts)
process st cfg_ignore params =
    some (st, if ltb 2 (length params) then wrong else permlist cfg_ignore)
process st cfg_automodelist params =
    if ltb 2 (length params) then some (st, wrong) else targeted st (automode_line (param params 0))
process st cfg_chanlog params =
    if ltb (length params) 2 || ltb 3 (length params)
    then some (st, wrong)
    else chanlog_line st params
process st cfg_channels params =
    some (if ltb 2 (length params) then (st, wrong) else channel_line st params)
process st cfg_onconnect params =
    if ltb 3 (length params) then some (st, wrong) else onconnect_line st params

unfoldable pub add_to : Parser → ListKind → Option Text → ℕ → Parser
unfolding add_perm
add_to st cfg_connhosts name n = record st { connhostlist = add_perm st.connhostlist name n }
add_to st cfg_ignore name n = record st { ignorelist = add_perm st.ignorelist name n }
add_to st cfg_automodelist name n = record st { automodelist = add_perm st.automodelist name n }
add_to st other name n = st

abbrev pub or_left : Parser × Option ℕ → ℕ → Parser × ℕ
or_left (st, none) n = (st, n)
or_left (st, some m) n = (st, m)

-- The entry of a list of permissions. The variable for a permission that is no boolean keeps what the
-- loop over the parameters left in it: their number.
unfoldable pub perm_line : Parser → ListKind → List (Option Text) → Parser
unfolding add_to assign_boolean
perm_line st k params =
    if length params == 1
    then add_to st k (param params 0) 1
    else if length params == 2
    then (let (st', n) = or_left (assign_boolean st (param params 1)) max_params in
        add_to st' k (param params 0) n)
    else st

unfoldable pub settle : Parser × Target → List (Option Text) → Parser
unfolding parse_error perm_line
settle (st, wrong) params = parse_error st
settle (st, right) params = st
settle (st, permlist k) params = perm_line st k params

-- A line of parameters. Where there are more than the array has room for, freeing them reads behind it.
unfoldable pub params_line : Parser → Text → Option Parser
unfolding scan parse_error process settle
params_line st line = elim (scan [] 0 [] line) [
  | none ↦ none
  | some bad_line ↦ some (parse_error st)
  | some (scanned params (suc inside)) ↦ some (parse_error st)
  | some (scanned params zero) ↦ elim (process st st.listid params) [
    | none ↦ none
    | some r ↦ if ltb max_params (length params) then none else some (settle r params)
  ]
]

abbrev pub has_char : ℕ → Text → Bool
has_char d [] = false
has_char d (c ∷ s) = c == d || has_char d s

unfoldable pub parse_list_line : Parser → Text → Option Parser
unfolding parse_error parse_param params_line
parse_list_line st line =
    let checked = if get_or line 1 0 == 0 then st else parse_error st in
    let params = params_line st line in
    if has_char b'=' line && has_char b'{' line
    then some (parse_param (record (parse_error st) { listid = cfg_invalid }) line)
    else if head0 line == b'}'
    then some (record checked { listid = cfg_nolist })
    else params

-- The lines of the buffer that a newline ends, `part` the one so far.
unfoldable pub lines_of : Text → Text → List Text
lines_of part [] = []
lines_of part (c ∷ s) =
    let rest = lines_of [] s in
    let longer = lines_of (part ++ c ∷ []) s in if c == 10 then part ∷ rest else longer

abbrev pub before_nul : Text → Text
before_nul [] = []
before_nul (c ∷ s) = let rest = before_nul s in if c == 0 then [] else c ∷ rest

-- A carriage return at the end is cut. For an empty first line the code reads the byte before the
-- buffer, which is taken to be none.
abbrev pub without_cr : Text → Text
without_cr line = if last0 line == 13 then take (length line - 1) line else line

unfoldable pub parse_line : Parser → Text → Option Parser
unfolding trim parse_param parse_list_line
parse_line st line =
    let t = trim (without_cr line) line_mode in
    if is_empty t || head0 t == b'#'
    then some st
    else elim st.listid [ cfg_nolist ↦ some (parse_param st t) | _ ↦ parse_list_line st t ]

unfoldable pub parse_lines : Parser → List Text → Option Parser
unfolding parse_line
parse_lines st [] = some st
parse_lines st (l ∷ lines) = elim (parse_line st l) [
  | none ↦ none
  | some st' ↦ parse_lines (record st' { line = suc st'.line }) lines
]

abbrev pub read_buf_size : ℕ
read_buf_size = 65536

abbrev pub finished : Parser → Parser
finished st = record (elim st.listid [ cfg_nolist ↦ st | _ ↦ parse_error st ]) { virgin = false }

abbrev pub started : Parser → Parser
started st = record st { line = 1; last_err_line = none }

abbrev pub ended : Option Parser → Option (Parser × Bool)
ended none = none
ended (some st) = some (finished st, true)

-- The file's contents, `none` where it cannot be opened. The Boolean is false for the result -1.
unfoldable pub parse_cfg : Parser → Option Text → Option (Parser × Bool)
unfolding parse_lines lines_of parse_error
parse_cfg st none = some (started st, false)
parse_cfg st (some file) =
    ended (
      parse_lines (started st)
        (lines_of [] (before_nul (take (read_buf_size - 2) file ++ 10 ∷ []))))
