-- ===== src/Parser/Lists.antt =====
-- src/parser.c: the lines of lists, `parse_list_line`, with `add_server`, chanlog_add_rule of
-- src/chanlog.c and onconnect_add of src/onconnect.c. `none` is a fault: a read or a write outside the
-- array of parameters, or of a string that is NULL.
use miau.Prelude.{
  ℕ, zero, suc, ◌+◌, ◌-◌, ◌/◌, ◌%◌, Bool, true, false, not, ◌&&◌, ◌||◌, Option, some, none, List,
  [], ◌∷◌, ◌++◌, Text, text_eq, codes, head0, ltb, ◌==◌, if◌then◌else◌, take, drop, get_or, length,
}
use miau.Prelude.Int.{ℤ, pos, negsuc, above}
use miau.Common.{same_nocase}
use miau.Parser.{Parser, trim, spaces, is_empty, last0, parse_error, ChanlogEntry}

abbrev pub max_params : ℕ
max_params = 4

-- What reading the parameters gives: a line that is given up, or the parameters and the quotes that
-- were seen since the last of them. `none` in place of it is a write behind the array.
pub data Scan : Type 0 where
  bad_line : Scan
  scanned : List (Option Text) → ℕ → Scan

-- The end of a parameter: its text, and the parameters before it.
unfoldable pub end_param : Text → List (Option Text) → Option (Option (List (Option Text)))
unfolding trim
end_param par params =
    let p = trim par spaces in
    if is_empty p
    then some (some (params ++ none ∷ []))
    else if not (last0 p == b'"' && head0 p == b'"')
    then some none
    else if ltb (length params) max_params
    then some (some (params ++ some (take (length p - 2) (drop 1 p)) ∷ []))
    else none

abbrev pub may_end : ℕ → Bool
may_end inside = inside == 0 || inside == 2

-- The loop, with the text of the parameter so far.
unfoldable pub scan : Text → ℕ → List (Option Text) → Text → Option Scan
unfolding end_param
scan par inside params [] =
    if may_end inside
    then elim (end_param par params) [
      | none ↦ none
      | some none ↦ some bad_line
      | some (some params') ↦ some (scanned params' 0)
    ]
    else some (scanned params inside)
scan par inside params (c ∷ s) =
    let next = scan (par ++ c ∷ []) (if c == b'"' then suc inside else inside) params s in
    if c == b':' && may_end inside
    then elim (end_param par params) [
      | none ↦ none
      | some none ↦ some bad_line
      | some (some params') ↦ scan [] 0 params' s
    ]
    else next

abbrev pub param : List (Option Text) → ℕ → Option Text
param params i = get_or params i none

abbrev pub or_zero : Option ℤ → ℤ
or_zero none = pos 0
or_zero (some n) = n

abbrev pub default_port : ℤ → ℤ
default_port (pos zero) = pos 6667
default_port (pos (suc n)) = pos (suc n)
default_port (negsuc n) = negsuc n

unfoldable pub add_server : Parser → Option Text → ℤ → Option Text → ℤ → Parser
add_server st none port pass timeout = st
add_server st (some name) port pass timeout = record st {
  servers =
      st.servers
      ++ record {
        name = name;
        port = default_port port;
        password = pass;
        timeout = if above 0 timeout then timeout else pos 0;
        working = 1;
      }
        ∷ [];
}

-- The bitwise or with a single bit.
abbrev pub or_bit : ℕ → ℕ → ℕ
or_bit t bit = if (t / bit) % 2 == 1 then t else t + bit

abbrev pub has_bit : ℕ → ℕ → Bool
has_bit t bit = (t / bit) % 2 == 1

abbrev pub or_bits : ℕ → List ℕ → ℕ
or_bits t [] = t
or_bits t (b ∷ bs) = or_bits (or_bit t b) bs

-- The bits of a letter of src/chanlog.h, `none` for any other.
unfoldable pub log_bits : ℕ → Option (List ℕ)
log_bits c =
    if c == b'm'
    then some (0x0001 ∷ [])
    else if c == b'j'
    then some (0x0002 ∷ [])
    else if c == b'e'
    then some (0x0004 ∷ [])
    else if c == b'q'
    then some (0x0008 ∷ [])
    else if c == b'c'
    then some (0x0010 ∷ [])
    else if c == b'n'
    then some (0x0020 ∷ [])
    else if c == b'o'
    then some (0x0040 ∷ [])
    else if c == b'b'
    then some (0x0080 ∷ [])
    else if c == b'a'
    then some (0x0001 ∷ 0x0002 ∷ 0x0004 ∷ 0x0008 ∷ 0x0010 ∷ 0x0020 ∷ 0x0040 ∷ 0x0080 ∷ [])
    else if c == b'A'
    then some (0x4000 ∷ [])
    else if c == b'D'
    then some (0x8000 ∷ [])
    else if c == b'C'
    then some (0x4000 ∷ 0x8000 ∷ [])
    else none

unfoldable pub log_type : Parser → ℕ → Text → Parser × ℕ
unfolding log_bits parse_error
log_type st t [] =
    (st, if has_bit t 0x4000 || has_bit t 0x8000 then t else or_bits t (0x4000 ∷ 0x8000 ∷ []))
log_type st t (c ∷ s) = elim (log_bits c) [
  | none ↦ log_type (parse_error st) t s
  | some bits ↦ log_type st (or_bits t bits) s
]

-- `strtok` with a comma: the parts that are not empty, `part` the one so far.
unfoldable pub tokens : Text → Text → List Text
tokens part [] = if is_empty part then [] else part ∷ []
tokens part (c ∷ s) =
    let rest = tokens [] s in
    let longer = tokens (part ++ c ∷ []) s in
    if c == b',' then (if is_empty part then rest else part ∷ rest) else longer

unfoldable pub has_entry : Text → List ChanlogEntry → Bool
has_entry chan [] = false
has_entry chan (e ∷ list) =
    let rest = has_entry chan list in if same_nocase chan e.channel then true else rest

abbrev pub has_comma : Text → Bool
has_comma [] = false
has_comma (c ∷ s) = c == b',' || has_comma s

-- The name of a log file; `none` where the suffix is needed and NULL.
unfoldable pub log_name : Option Text → Text → Option Text → Option Text
log_name (some file) chan suffix = some (codes "logs/" ++ file)
log_name none chan none = none
log_name none chan (some suffix) = some (codes "logs/" ++ (chan ++ suffix))

-- The walk over the tokens, which stops at a channel that has an entry.
unfoldable pub add_rules : Parser → Option Text → ℕ → List Text → Option Parser
unfolding has_entry log_name
add_rules st file type [] = some st
add_rules st file type (chan ∷ chans) =
    elim (log_name file chan (st.cfg.texts (codes "logsuffix"))) [
      | none ↦ if has_entry chan st.chanlog_list then some st else none
      | some name ↦
          let e : ChanlogEntry = record { channel = chan; type = type; filename = name } in
          let more = add_rules (record st { chanlog_list = e ∷ st.chanlog_list }) file type chans in
          if has_entry chan st.chanlog_list then some st else more
    ]

unfoldable pub chanlog_add_rule : Parser → Option Text → Option Text → ℕ → Option Parser
unfolding add_rules tokens
chanlog_add_rule st none file type = some st
chanlog_add_rule st (some channels) file type =
    if is_empty channels
    then some st
    else if text_eq channels (codes "*")
    then some (record st { global_logtype = type })
    else add_rules st (if has_comma channels then none else file) type (tokens [] channels)

unfoldable pub onconnect_add : Parser → ℕ → Option Text → Option Text → Option Parser
onconnect_add st type target text =
    if type == b'p' || type == b'n'
    then elim target [
      | none ↦ none
      | some t ↦ elim text [
        | none ↦ none
        | some d ↦
            let command = if type == b'p' then codes "PRIVMSG" else codes "NOTICE" in
            some (record st {
              onconnect_actions =
                  st.onconnect_actions ++ some (command ++ b' ' ∷ (t ++ b' ' ∷ b':' ∷ d)) ∷ [];
            })
      ]
    ]
    else if type == b'r'
    then some (record st { onconnect_actions = st.onconnect_actions ++ target ∷ [] })
    else some st
