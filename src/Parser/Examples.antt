-- ===== src/Parser/Examples.antt =====
-- Runs of the configuration parser, and the theorems at concrete states.
use miau.Prelude.{
  ℕ, ◌≡◌, refl, Bool, true, false, Option, some, none, List, [], ◌∷◌, ◌++◌, Text, codes, arith,
  ◌&&◌, text_eq, if◌then◌else◌, leb, ◌+◌, inl, inr, Bool-cases,
}
use miau.Prelude.Int.{ℤ, pos}
use miau.Tools
use miau.Parser.{Parser, cfg_nolist}
use miau.Parser.Settings.{
  Kind, text, boolean, character, format, integer, one_of, Setting, settings,
}
use miau.Parser.Lists.{scanned, scan}
use miau.Parser.Lines.{parse_cfg}
use miau.Parser.Params.{listed, scan-listed}
use miau.Parser.Range.{kind_in, kind_of, fits, InRange}
use miau.Parser.Whole.{parse_cfg-InRange}

abbrev start : Parser
start = record {
  virgin = true;
  line = 1;
  last_err_line = none;
  listid = cfg_nolist;
  errors = [];
  erange = false;
  cfg = record { texts = λ f. none; ints = λ f. pos 0 };
  nicks = [];
  servers = [];
  connhostlist = [];
  ignorelist = [];
  automodelist = [];
  chanlog_list = [];
  global_logtype = 0;
  channels = record { active_channels = []; passive_channels = []; old_channels = []; next = 0 };
  onconnect_actions = [];
}

abbrev crlf : Text
crlf = 10 ∷ []

abbrev file : Text
file =
    codes "# comment"
    ++ crlf
    ++ codes "listenport = \"6668\" # port"
    ++ crlf
    ++ codes "nicknames = {"
    ++ crlf
    ++ codes "\"nick\""
    ++ crlf
    ++ codes "}"
    ++ crlf
    ++ codes "burstsize = \"0\""
    ++ crlf
    ++ codes "bogus"
    ++ crlf

abbrev outcome : Option (Parser × Bool) → Option (List ℕ × List (Option Text) × ℤ × ℤ)
outcome none = none
outcome (some (st, ok)) =
    some (st.errors, st.nicks, st.cfg.ints (codes "listenport"), st.cfg.ints (codes "burstsize"))

read_file :
    outcome (parse_cfg start (some file)) ≡ some (7 ∷ [], some (codes "nick") ∷ [], pos 6668, pos 1)
unfolding parse_cfg miau.Tools.pos
read_file = refl

scan-listed_example : scan [] 0 [] (listed (codes "a:b") (codes "" ∷ codes "c" ∷ [])) ≡ (
    if leb (0 + 3) 4
    then some (scanned (some (codes "a:b") ∷ some [] ∷ some (codes "c") ∷ []) 0)
    else none)
scan-listed_example =
    scan-listed (codes "a:b") (codes "" ∷ codes "c" ∷ []) []
      (λ e. omega arith, (λ e. omega arith, (λ e. omega arith, tt)))
      (tt, ((λ e. omega arith, tt), tt))

-- The least value of each kind, with which the configuration is in range.
least : Kind → ℤ
least (integer min) = min
least text = pos 0
least boolean = pos 0
least character = pos 0
least format = pos 0
least (one_of options) = pos 0

rows_fit : List Setting → Bool
rows_fit [] = true
rows_fit (r ∷ rows) = fits r.kind (least r.kind) && rows_fit rows

kind_in-fits :
    (f : Text) (rows : List Setting)
    → rows_fit rows ≡ true
    → fits (kind_in f rows) (least (kind_in f rows)) ≡ true
unfolding kind_in rows_fit least fits
kind_in-fits f [] h = refl
kind_in-fits f (r ∷ rows) h = elim (Bool-cases (text_eq r.field f)) [
  | inl e ↦ rw e (and_left _ _ h)
  | inr e ↦ rw e (kind_in-fits f rows (and_right _ _ h))
]
  where
    and_left : (a b : Bool) → (a && b) ≡ true → a ≡ true
    and_left a b h = ground arith

    and_right : (a b : Bool) → (a && b) ≡ true → b ≡ true
    and_right a b h = ground arith

abbrev ranged : Parser
ranged = record start { cfg = record { texts = λ f. none; ints = λ f. least (kind_of f) } }

ranged-InRange : InRange ranged
unfolding InRange kind_of rows_fit fits least
ranged-InRange f = kind_in-fits f settings refl

abbrev read : Option (Parser × Bool) → Parser
read none = start
read (some (st, ok)) = st

parse_cfg-InRange_example : InRange (read (parse_cfg ranged (some file)))
unfolding parse_cfg miau.Tools.pos
parse_cfg-InRange_example =
    parse_cfg-InRange ranged (read (parse_cfg ranged (some file))) (some file) true ranged-InRange
      refl
