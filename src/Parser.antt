-- ===== src/Parser.antt =====
-- src/parser.c: values and settings of the configuration file; its children have the lines of lists
-- and the file as a whole. All compile-time options are on. Trimming writes into the line, which no
-- one reads again, so that texts are values here.
pub mod Settings
pub mod Lists
pub mod Lines
pub mod Params
pub mod Range
pub mod Assigned
pub mod Kept
pub mod Whole
pub mod Permissions
pub mod Comments
mod Examples
use miau.Prelude.{
  ℕ, zero, suc, ◌+◌, ◌-◌, ◌*◌, ◌%◌, ◌^◌, Bool, true, false, not, ◌&&◌, ◌||◌, Option, some, none,
  List, [], ◌∷◌, ◌++◌, Text, text_eq, codes, head0, ltb, leb, ◌==◌, if◌then◌else◌, length, get_or,
  take, drop,
}
use miau.Prelude.Int.{ℤ, pos, negsuc}
use miau.Perm.{PermList}
use miau.Channels.{Channels}

abbrev pub is_space : ℕ → Bool
is_space c = c == b' ' || c == 9

unfoldable pub skip_space : Text → Text
skip_space [] = []
skip_space (c ∷ s) = let rest = skip_space s in if is_space c then rest else c ∷ s

unfoldable pub cut_comment : Bool → Text → Text
cut_comment inside [] = []
cut_comment inside (c ∷ s) =
    let toggled = cut_comment (not inside) s in
    let same = cut_comment inside s in
    if c == b'"' then c ∷ toggled else if c == b'#' && not inside then [] else c ∷ same

abbrev pub is_empty : Text → Bool
is_empty [] = true
is_empty (c ∷ s) = false

unfoldable pub trim_end : Text → Text
trim_end [] = []
trim_end (c ∷ s) = let rest = trim_end s in if is_space c && is_empty rest then [] else c ∷ rest

pub data TrimMode : Type 0 where
  spaces line_mode : TrimMode

unfoldable pub trim : Text → TrimMode → Text
unfolding skip_space cut_comment trim_end
trim text spaces = trim_end (skip_space text)
trim text line_mode = trim_end (cut_comment false (skip_space text))

-- The last character, the terminator of an empty text.
abbrev pub last0 : Text → ℕ
last0 s = get_or s (length s - 1) 0

-- A single quote is its own partner: what is left of it is empty.
unfoldable pub trimquotes : Text → Option Text
trimquotes text =
    if head0 text == b'"' && last0 text == b'"'
    then some (take (length text - 2) (drop 1 text))
    else none

-- The configuration's fields, by their names in `cfg_type`.
pub record Cfg : Type 0 where
  pub texts : Text → Option Text
  pub ints : Text → ℤ

pub record ServerType : Type 0 where
  pub name : Text
  pub port : ℤ
  pub password : Option Text
  pub timeout : ℤ
  pub working : ℕ

pub record ChanlogEntry : Type 0 where
  pub channel : Text
  pub type : ℕ
  pub filename : Text

pub data ListKind : Type 0 where
  cfg_invalid cfg_nolist cfg_nicknames cfg_servers cfg_connhosts cfg_ignore : ListKind
  cfg_automodelist cfg_chanlog cfg_channels cfg_onconnect : ListKind

-- The parser's own variables, and what it fills. `errors` has the lines that were reported, `erange`
-- says whether errno is ERANGE.
pub record Parser : Type 0 where
  pub virgin : Bool
  pub line : ℕ
  pub last_err_line : Option ℕ
  pub listid : ListKind
  pub errors : List ℕ
  pub erange : Bool
  pub cfg : Cfg
  pub nicks : List (Option Text)
  pub servers : List ServerType
  pub connhostlist : PermList
  pub ignorelist : PermList
  pub automodelist : PermList
  pub chanlog_list : List ChanlogEntry
  pub global_logtype : ℕ
  pub channels : Channels
  pub onconnect_actions : List (Option Text)

abbrev pub same_line : Option ℕ → ℕ → Bool
same_line none n = false
same_line (some m) n = m == n

unfoldable pub parse_error : Parser → Parser
parse_error st =
    if same_line st.last_err_line st.line
    then st
    else record st { errors = st.errors ++ st.line ∷ []; last_err_line = some st.line }

-- `strtol` of the C library with base 10: the sign and the digits.
abbrev pub is_blank : ℕ → Bool
is_blank c = c == b' ' || leb 9 c && leb c 13

unfoldable pub digits : ℕ → Text → ℕ
digits n [] = n
digits n (c ∷ s) =
    let more = digits (n * 10 + (c - b'0')) s in if leb b'0' c && leb c b'9' then more else n

unfoldable pub strtol : Text → Bool × ℕ
unfolding digits
strtol [] = (false, 0)
strtol (c ∷ s) =
    let more = strtol s in
    if is_blank c
    then more
    else if c == b'-'
    then (true, digits 0 s)
    else if c == b'+'
    then (false, digits 0 s)
    else (false, digits 0 (c ∷ s))

-- Whether a long of 64 bits has no room for it.
unfoldable pub out_of_range : Bool × ℕ → Bool
out_of_range (true, m) = ltb (2 ^ 63) m
out_of_range (false, m) = leb (2 ^ 63) m

-- The conversion of the long to an int of 32 bits.
unfoldable pub to_int : Bool × ℕ → ℤ
to_int (sign, m) =
    let low = m % 2 ^ 32 in
    let w = if sign && ltb 0 low then 2 ^ 32 - low else low in
    if ltb w (2 ^ 31) then pos w else negsuc (2 ^ 32 - 1 - w)

abbrev pub int_lt : ℤ → ℤ → Bool
int_lt (pos a) (pos b) = ltb a b
int_lt (pos a) (negsuc b) = false
int_lt (negsuc a) (pos b) = true
int_lt (negsuc a) (negsuc b) = ltb b a

-- The state and the value for the target, `none` where the target keeps its value. errno is not reset
-- before the call, so that it is ERANGE from the first number out of range on.
unfoldable pub assign_int : Parser → Option Text → ℤ → Parser × Option ℤ
unfolding strtol out_of_range to_int parse_error
assign_int st none min = (st, some min)
assign_int st (some text) min =
    let l = strtol text in
    let n = to_int l in
    if st.erange || out_of_range l
    then (parse_error (record st { erange = true }), none)
    else (st, some (if int_lt n min then min else n))

-- The index of the option from `i` on.
unfoldable pub option_from : ℕ → Text → List Text → Option ℕ
option_from i val [] = none
option_from i val (o ∷ options) =
    let later = option_from (suc i) val options in if text_eq val o then some i else later

unfoldable pub parse_option : Option Text → List Text → Option ℕ
unfolding option_from
parse_option none options = none
parse_option (some []) options = none
parse_option (some (c ∷ val)) options = option_from 0 (c ∷ val) options

unfoldable pub assign_option : Parser → Option Text → List Text → Parser × Option ℕ
unfolding parse_option parse_error
assign_option st val options = elim (parse_option val options) [
  | none ↦ (parse_error st, none)
  | some t ↦ (st, some t)
]

abbrev pub trues : List Text
trues = codes "true" ∷ codes "yes" ∷ codes "on" ∷ codes "1" ∷ []

abbrev pub falses : List Text
falses = codes "false" ∷ codes "no" ∷ codes "off" ∷ codes "0" ∷ []

unfoldable pub assign_boolean : Parser → Option Text → Parser × Option ℕ
unfolding parse_option parse_error
assign_boolean st val = elim (parse_option val trues) [
  | some t ↦ (st, some 1)
  | none ↦ elim (parse_option val falses) [ some t ↦ (st, some 0) | none ↦ (parse_error st, none) ]
]
