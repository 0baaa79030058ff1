-- ===== src/Parser/Settings.antt =====
-- src/parser.c: the settings of `parse_param`. The chain of tests is the table `settings`, in the order
-- of the source, of which the first row with the name is taken.
use miau.Prelude.{
  ℕ, suc, Bool, true, false, ◌&&◌, ◌||◌, Option, some, none, List, [], ◌∷◌, Text, text_eq, codes,
  head0, ◌==◌, if◌then◌else◌, take, drop, get_or,
}
use miau.Prelude.Int.{ℤ, pos, negsuc}
use miau.Tools
use miau.Parser.{
  Parser, ListKind, cfg_invalid, cfg_nicknames, cfg_servers, cfg_connhosts, cfg_ignore,
  cfg_automodelist, cfg_chanlog, cfg_channels, cfg_onconnect, trim, spaces, is_space, is_empty,
  trimquotes, parse_error, assign_int, assign_option, assign_boolean,
}

-- How a value is read.
pub data Kind : Type 0 where
  text boolean character format : Kind
  integer : ℤ → Kind
  one_of : List Text → Kind

-- The name in the file, the field of `cfg`, and how its value is read.
pub record Setting : Type 0 where
  pub key : Text
  pub field : Text
  pub kind : Kind

abbrev row : Text → Kind → Setting
row key kind = record { key = key; field = key; kind = kind }

abbrev row_as : Text → Text → Kind → Setting
row_as key field kind = record { key = key; field = field; kind = kind }

abbrev pub settings : List Setting
settings =
    row (codes "realname") text
    ∷ row (codes "username") text
    ∷ row (codes "cmdpasswd") text
    ∷ row (codes "qloglength") (integer (pos 0))
    ∷ row (codes "timestamp") (one_of (codes "none" ∷ codes "beginning" ∷ codes "end" ∷ []))
    ∷ row (codes "flushqlog") boolean
    ∷ row (codes "autoqlog") (integer (negsuc 0))
    ∷ row (codes "logsuffix") text
    ∷ row_as (codes "logpostfix") (codes "logsuffix") text
    ∷ row (codes "inbox") boolean
    ∷ row (codes "listenport") (integer (pos 0))
    ∷ row (codes "listenhost") text
    ∷ row (codes "password") text
    ∷ row (codes "leave") boolean
    ∷ row (codes "chandiscon")
        (one_of (codes "nothing" ∷ codes "notice" ∷ codes "part" ∷ codes "privmsg" ∷ []))
    ∷ row (codes "leavemsg") text
    ∷ row (codes "awaymsg") text
    ∷ row (codes "usequitmsg") boolean
    ∷ row (codes "autoaway") (one_of (codes "never" ∷ codes "detach" ∷ codes "noclients" ∷ []))
    ∷ row (codes "getnick")
        (one_of (codes "never" ∷ codes "detached" ∷ codes "attached" ∷ codes "always" ∷ []))
    ∷ row (codes "getnickinterval") (integer (pos 0))
    ∷ row (codes "bind") text
    ∷ row (codes "automodedelay") (integer (pos 0))
    ∷ row (codes "antiidle") (integer (pos 0))
    ∷ row (codes "nevergiveup") boolean
    ∷ row_as (codes "norestricted") (codes "jumprestricted") boolean
    ∷ row (codes "stonedtimeout") (integer (pos 30))
    ∷ row (codes "connecttimeout") (integer (pos 5))
    ∷ row (codes "reconnectdelay") (integer (pos 1))
    ∷ row (codes "rejoin") boolean
    ∷ row (codes "forwardmsg") text
    ∷ row (codes "forwardtime") (integer (pos 30))
    ∷ row (codes "maxclients") (integer (pos 1))
    ∷ row (codes "privlog")
        (one_of (codes "never" ∷ codes "detached" ∷ codes "attached" ∷ codes "always" ∷ []))
    ∷ row (codes "dccbounce") boolean
    ∷ row (codes "dccbindhost") text
    ∷ row (codes "nickfillchar") character
    ∷ row (codes "usermode") text
    ∷ row (codes "maxnicklen") (integer (pos 3))
    ∷ row (codes "floodtimer") (integer (pos 0))
    ∷ row (codes "burstsize") (integer (pos 1))
    ∷ row (codes "jointries") (integer (pos 0))
    ∷ row (codes "statelog") boolean
    ∷ row_as (codes "noidentifycapab") (codes "no_identify_capab") boolean
    ∷ row (codes "qlog_no_my_quit") boolean
    ∷ row_as (codes "privmsg_format") (codes "privmsg_fmt") format
    ∷ row (codes "newserv_disconn")
        (one_of (codes "never" ∷ codes "newserver" ∷ codes "always" ∷ []))
    ∷ []

unfoldable pub find_setting : Text → List Setting → Option Setting
find_setting key [] = none
find_setting key (s ∷ rest) =
    let later = find_setting key rest in if text_eq key s.key then some s else later

unfoldable pub set_text : Parser → Text → Option Text → Parser
set_text st field v = record st {
  cfg = record { texts = λ f. if text_eq field f then v else st.cfg.texts f; ints = st.cfg.ints };
}

unfoldable pub set_int : Parser → Text → ℤ → Parser
set_int st field v = record st {
  cfg = record { texts = st.cfg.texts; ints = λ f. if text_eq field f then v else st.cfg.ints f };
}

abbrev pub non_empty : Text → Option Text
non_empty [] = none
non_empty (c ∷ s) = some (c ∷ s)

-- `strstr`: whether the text has the part.
unfoldable pub has_part : Text → Text → Bool
has_part [] part = is_empty part
has_part (c ∷ s) part = let later = has_part s part in strncmp_zero_prefix part (c ∷ s) || later
  where
    strncmp_zero_prefix : Text → Text → Bool
    strncmp_zero_prefix [] s = true
    strncmp_zero_prefix (p ∷ ps) [] = false
    strncmp_zero_prefix (p ∷ ps) (d ∷ s) = (p == d) && strncmp_zero_prefix ps s

abbrev pub keep_or : Text → Parser × Option ℤ → Parser
keep_or field (st, none) = st
keep_or field (st, some v) = set_int st field v

abbrev pub as_int : Parser × Option ℕ → Parser × Option ℤ
as_int (st, none) = (st, none)
as_int (st, some n) = (st, some (pos n))

-- One setting of the chain.
unfoldable pub assign : Parser → Text → Text → Kind → Parser
unfolding set_text set_int assign_int assign_option assign_boolean parse_error trim has_part
assign st field val text = set_text st field (non_empty (trim val spaces))
assign st field val boolean = keep_or field (as_int (assign_boolean st (some val)))
assign st field val character = set_int st field (pos (head0 val))
assign st field val format =
    if has_part val (codes "%s") then set_text st field (non_empty val) else parse_error st
assign st field val (integer min) = keep_or field (assign_int st (some val) min)
assign st field val (one_of options) = keep_or field (as_int (assign_option st (some val) options))

abbrev pub list_names : List (Text × ListKind)
list_names =
    (codes "nicknames", cfg_nicknames)
    ∷ (codes "servers", cfg_servers)
    ∷ (codes "connhosts", cfg_connhosts)
    ∷ (codes "ignore", cfg_ignore)
    ∷ (codes "automodes", cfg_automodelist)
    ∷ (codes "chanlog", cfg_chanlog)
    ∷ (codes "channels", cfg_channels)
    ∷ (codes "onconnect", cfg_onconnect)
    ∷ []

unfoldable pub list_named : Text → List (Text × ListKind) → Option ListKind
list_named key [] = none
list_named key ((name, k) ∷ rest) =
    let later = list_named key rest in if text_eq key name then some k else later

abbrev pub has_space : Text → Bool
has_space [] = false
has_space (c ∷ s) = is_space c || has_space s

-- The start of a list.
unfoldable pub begin_list : Parser → Text → Text → Parser
unfolding parse_error list_named
begin_list st key val =
    let checked = if get_or val 1 0 == 0 then st else parse_error st in
    elim (list_named key list_names) [
      | some k ↦ record checked { listid = k }
      | none ↦ parse_error (record checked { listid = cfg_invalid })
    ]

unfoldable pub set_param : Parser → Text → Text → Parser
unfolding parse_error trimquotes find_setting assign
set_param st key val = elim (trimquotes val) [
  | none ↦ parse_error st
  | some v ↦ elim (find_setting key settings) [
    | none ↦ parse_error st
    | some s ↦ assign st s.field v s.kind
  ]
]

unfoldable pub parse_param : Parser → Text → Parser
unfolding parse_error trim begin_list set_param
parse_param st line = elim (miau.Tools.pos line b'=') [
  | none ↦ parse_error st
  | some i ↦
      let key = trim (take i line) spaces in
      let val = trim (drop (suc i) line) spaces in
      if has_space key
      then parse_error st
      else if head0 val == b'{'
      then begin_list st key val
      else set_param st key val
]
