-- ===== src/Parser/Whole.antt =====
-- The whole file: the numbers of the configuration stay in range.
use miau.Prelude.{
  ℕ, zero, suc, ◌-◌, ◌≡◌, ◌∙◌, refl, ap, inl, inr, Bool, ◌&&◌, ◌||◌, Option, some, none, List, [],
  ◌∷◌, ◌++◌, Text, head0, ltb, ◌==◌, if◌then◌else◌, take, get_or, length, arith, Bool-cases,
  Option-cases,
}
use miau.Parser.{
  Parser, ListKind, cfg_invalid, cfg_nolist, cfg_nicknames, cfg_servers, cfg_connhosts, cfg_ignore,
  cfg_automodelist, cfg_chanlog, cfg_channels, cfg_onconnect, parse_error, assign_boolean, is_empty,
  trim, line_mode,
}
use miau.Parser.Settings.{parse_param}
use miau.Parser.Lists.{Scan, bad_line, scanned, scan, max_params, param}
use miau.Parser.Lines.{
  Target, wrong, right, permlist, process, add_to, or_left, perm_line, settle, params_line,
  parse_list_line, parse_line, parse_lines, parse_cfg, has_char, without_cr, lines_of, before_nul,
  read_buf_size, started, finished, ended,
}
use miau.Parser.Assigned.{parse_param-InRange}
use miau.Parser.Range.{cfg-parse_error, InRange, same_cfg-InRange, parse_error-InRange}
use miau.Parser.Kept.{KeepsPair, process-KeepsPair, cfg-assign_boolean}

cfg-add_to :
    (st : Parser) (k : ListKind) (name : Option Text) (n : ℕ) → (add_to st k name n).cfg ≡ st.cfg
unfolding add_to
cfg-add_to st cfg_connhosts name n = refl
cfg-add_to st cfg_ignore name n = refl
cfg-add_to st cfg_automodelist name n = refl
cfg-add_to st cfg_invalid name n = refl
cfg-add_to st cfg_nolist name n = refl
cfg-add_to st cfg_nicknames name n = refl
cfg-add_to st cfg_servers name n = refl
cfg-add_to st cfg_chanlog name n = refl
cfg-add_to st cfg_channels name n = refl
cfg-add_to st cfg_onconnect name n = refl

or_left-state : (r : Parser × Option ℕ) (n : ℕ) → (or_left r n).0 ≡ r.0
or_left-state (st, none) n = refl
or_left-state (st, some m) n = refl

cfg-perm_line :
    (st : Parser) (k : ListKind) (params : List (Option Text))
    → (perm_line st k params).cfg ≡ st.cfg
unfolding perm_line
cfg-perm_line st k params = elim (Bool-cases (length params == 1)) [
  | inl e ↦ rw (e, perm_line) (cfg-add_to st k (param params 0) 1)
  | inr e ↦ elim (Bool-cases (length params == 2)) [
    | inl f ↦
        rw (e, f, perm_line)
          (cfg-add_to _ k (param params 0) _
            ∙ (ap (λ (s : Parser). s.cfg)
                  (or_left-state (assign_boolean st (param params 1)) max_params)
                ∙ cfg-assign_boolean st (param params 1)))
    | inr f ↦ rw (e, f, perm_line) refl
  ]
]

cfg-settle :
    (st : Parser) (t : Target) (params : List (Option Text)) → (settle (st, t) params).cfg ≡ st.cfg
unfolding settle
cfg-settle st wrong params = cfg-parse_error st
cfg-settle st right params = refl
cfg-settle st (permlist k) params = cfg-perm_line st k params

-- A result, if there is one, is in range.
unfoldable pub AllInRange : Option Parser → Type 0
AllInRange none = Unit
AllInRange (some st) = InRange st

settled-InRange :
    (st : Parser) (r : Option (Parser × Target)) (params : List (Option Text))
    → KeepsPair st r
    → InRange st
    → AllInRange (elim r [
      | none ↦ none
      | some r' ↦ if ltb max_params (length params) then none else some (settle r' params)
    ])
unfolding AllInRange KeepsPair
settled-InRange st none params k h = tt
settled-InRange st (some (st', t)) params k h = elim (Bool-cases (ltb max_params (length params))) [
  | inl e ↦ rw e tt
  | inr e ↦ rw e (same_cfg-InRange st (settle (st', t) params) (cfg-settle st' t params ∙ k) h)
]

scanned-InRange :
    (st : Parser) (line : Text) (s : Scan)
    → InRange st
    → scan [] 0 [] line ≡ some s
    → AllInRange (params_line st line)
unfolding params_line AllInRange
scanned-InRange st line bad_line h e = rw (e, params_line) (parse_error-InRange st h)
scanned-InRange st line (scanned params (suc inside)) h e =
    rw (e, params_line) (parse_error-InRange st h)
scanned-InRange st line (scanned params zero) h e =
    rw (e, params_line)
      (settled-InRange st (process st st.listid params) params
        (process-KeepsPair st st.listid params) h)

params_line-InRange : (st : Parser) (line : Text) → InRange st → AllInRange (params_line st line)
unfolding params_line AllInRange
params_line-InRange st line h = elim (Option-cases (scan [] 0 [] line)) [
  | inl e ↦ rw (e, params_line) tt
  | inr (s, e) ↦ scanned-InRange st line s h e
]

parse_list_line-InRange :
    (st : Parser) (line : Text) → InRange st → AllInRange (parse_list_line st line)
unfolding parse_list_line AllInRange
parse_list_line-InRange st line h = elim (Bool-cases (has_char b'=' line && has_char b'{' line)) [
  | inl e ↦
      rw (e, parse_list_line)
        (parse_param-InRange (record (parse_error st) { listid = cfg_invalid }) line
          (same_cfg-InRange st (record (parse_error st) { listid = cfg_invalid })
            (cfg-parse_error st) h))
  | inr e ↦ elim (Bool-cases (head0 line == b'}')) [
    | inr f ↦ rw (e, f, parse_list_line) (params_line-InRange st line h)
    | inl f ↦ elim (Bool-cases (get_or line 1 0 == 0)) [
      | inl g ↦
          rw (e, f, g, parse_list_line)
            (same_cfg-InRange st (record st { listid = cfg_nolist }) refl h)
      | inr g ↦
          rw (e, f, g, parse_list_line)
            (same_cfg-InRange st (record (parse_error st) { listid = cfg_nolist })
              (cfg-parse_error st) h)
    ]
  ]
]

-- A line goes to the settings or to a list.
sent-InRange :
    (st : Parser) (t : Text) (k : ListKind)
    → InRange st
    → AllInRange (elim k [ cfg_nolist ↦ some (parse_param st t) | _ ↦ parse_list_line st t ])
unfolding AllInRange
sent-InRange st t cfg_nolist h = parse_param-InRange st t h
sent-InRange st t cfg_invalid h = parse_list_line-InRange st t h
sent-InRange st t cfg_nicknames h = parse_list_line-InRange st t h
sent-InRange st t cfg_servers h = parse_list_line-InRange st t h
sent-InRange st t cfg_connhosts h = parse_list_line-InRange st t h
sent-InRange st t cfg_ignore h = parse_list_line-InRange st t h
sent-InRange st t cfg_automodelist h = parse_list_line-InRange st t h
sent-InRange st t cfg_chanlog h = parse_list_line-InRange st t h
sent-InRange st t cfg_channels h = parse_list_line-InRange st t h
sent-InRange st t cfg_onconnect h = parse_list_line-InRange st t h

parse_line-InRange : (st : Parser) (line : Text) → InRange st → AllInRange (parse_line st line)
unfolding parse_line AllInRange
parse_line-InRange st line h =
    let t = trim (without_cr line) line_mode in
    elim (Bool-cases (is_empty t || head0 t == b'#')) [
      | inl e ↦ rw (e, parse_line) h
      | inr e ↦ rw (e, parse_line) (sent-InRange st t st.listid h)
    ]

parse_lines-InRange :
    (lines : List Text) (st : Parser) → InRange st → AllInRange (parse_lines st lines)
unfolding parse_lines AllInRange
parse_lines-InRange [] st h = h
parse_lines-InRange (l ∷ lines) st h = elim (Option-cases (parse_line st l)) [
  | inl e ↦ rw (e, parse_lines) tt
  | inr (st', e) ↦
      rw (e, parse_lines)
        (parse_lines-InRange lines (record st' { line = suc st'.line })
          (same_cfg-InRange st' (record st' { line = suc st'.line }) refl
            (rw e at (parse_line-InRange st l h))))
]

cfg-finished : (st : Parser) → (finished st).cfg ≡ st.cfg
unfolding parse_error
cfg-finished st = ground arith

outcome-InRange :
    (r : Option Parser) (st' : Parser) (ok : Bool)
    → AllInRange r
    → ended r ≡ some (st', ok)
    → InRange st'
unfolding AllInRange
outcome-InRange none st' ok h e = absurd (no_outcome st' ok e)
  where
    no_outcome : (st' : Parser) (ok : Bool) → ended none ≡ some (st', ok) → ⊥
    no_outcome st' ok e = ground arith
outcome-InRange (some st'') st' ok h e =
    same_cfg-InRange st'' st' (cc_cfg st'' st' ok e ∙ cfg-finished st'') h
  where
    cc_cfg :
        (st'' st' : Parser) (ok : Bool)
        → ended (some st'') ≡ some (st', ok)
        → st'.cfg ≡ (finished st'').cfg
    cc_cfg st'' st' ok e = cc

-- Whatever a configuration file says, each number of the configuration is in the range of its setting
-- once the file was read, if it was before: where reading it ends without a fault.
pub parse_cfg-InRange :
    (st st' : Parser) (file : Option Text) (ok : Bool)
    → InRange st
    → parse_cfg st file ≡ some (st', ok)
    → InRange st'
unfolding parse_cfg InRange
parse_cfg-InRange st st' none ok h e = same_cfg-InRange (started st) st' (unopened st st' ok e) h
  where
    unopened :
        (st st' : Parser) (ok : Bool)
        → parse_cfg st none ≡ some (st', ok)
        → st'.cfg ≡ (started st).cfg
    unopened st st' ok e = cc
parse_cfg-InRange st st' (some file) ok h e =
    outcome-InRange _ st' ok
      (parse_lines-InRange (lines_of [] (before_nul (take (read_buf_size - 2) file ++ 10 ∷ [])))
        (started st) (same_cfg-InRange st (started st) refl h))
      e
