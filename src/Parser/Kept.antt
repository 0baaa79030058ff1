-- ===== src/Parser/Kept.antt =====
-- The lines of lists leave the configuration's fields alone.
use miau.Prelude.{
  ℕ, ◌≡◌, ◌∙◌, refl, inl, inr, true, ◌||◌, Option, some, none, List, [], ◌∷◌, Text, text_eq, codes,
  head0, ltb, ◌==◌, if◌then◌else◌, length, arith, Bool-cases, Option-cases,
}
use miau.Prelude.Int.{ℤ, pos}
use miau.Parser.{
  Parser, ListKind, ChanlogEntry, cfg_invalid, cfg_nolist, cfg_nicknames, cfg_servers,
  cfg_connhosts, cfg_ignore, cfg_automodelist, cfg_chanlog, cfg_channels, cfg_onconnect,
  parse_error, assign_int, assign_boolean, strtol, out_of_range, parse_option, trues, falses,
  is_empty,
}
use miau.Parser.Lists.{
  param, add_server, log_bits, or_bits, log_type, tokens, has_entry, has_comma, log_name, add_rules,
  chanlog_add_rule, onconnect_add,
}
use miau.Parser.Lines.{
  Target, right, server_line, automode_line, chanlog_line, channel_line, onconnect_line, targeted,
  process,
}
use miau.Parser.Range.{cfg-parse_error}

-- A result, if there is one, has the configuration of the state.
unfoldable pub Keeps : Parser → Option Parser → Type 0
Keeps st none = Unit
Keeps st (some st') = st'.cfg ≡ st.cfg

unfoldable pub KeepsPair : Parser → Option (Parser × Target) → Type 0
KeepsPair st none = Unit
KeepsPair st (some r) = r.0.cfg ≡ st.cfg

cfg-assign_int :
    (st : Parser) (val : Option Text) (min : ℤ) → (assign_int st val min).0.cfg ≡ st.cfg
unfolding assign_int
cfg-assign_int st none min = refl
cfg-assign_int st (some val) min = elim (Bool-cases (st.erange || out_of_range (strtol val))) [
  | inl e ↦ rw (e, assign_int) (cfg-parse_error (record st { erange = true }))
  | inr e ↦ rw (e, assign_int) refl
]

pub cfg-assign_boolean : (st : Parser) (val : Option Text) → (assign_boolean st val).0.cfg ≡ st.cfg
unfolding assign_boolean
cfg-assign_boolean st val = elim (Option-cases (parse_option val trues)) [
  | inr (t, e) ↦ rw (e, assign_boolean) refl
  | inl e ↦ elim (Option-cases (parse_option val falses)) [
    | inr (t, f) ↦ rw (e, f, assign_boolean) refl
    | inl f ↦ rw (e, f, assign_boolean) (cfg-parse_error st)
  ]
]

cfg-add_server :
    (st : Parser) (name : Option Text) (port : ℤ) (pass : Option Text) (timeout : ℤ)
    → (add_server st name port pass timeout).cfg ≡ st.cfg
unfolding add_server
cfg-add_server st none port pass timeout = refl
cfg-add_server st (some name) port pass timeout = refl

cfg-server_line : (st : Parser) (params : List (Option Text)) → (server_line st params).cfg ≡ st.cfg
unfolding server_line
cfg-server_line st params =
    cfg-add_server _ _ _ _ _
    ∙ (cfg-assign_int _ (param params 3) (pos 0) ∙ cfg-assign_int st (param params 1) (pos 0))

cfg-log_type : (st : Parser) (t : ℕ) (letters : Text) → (log_type st t letters).0.cfg ≡ st.cfg
unfolding log_type
cfg-log_type st t [] = refl
cfg-log_type st t (c ∷ s) = elim (Option-cases (log_bits c)) [
  | inl e ↦ rw (e, log_type) (cfg-log_type (parse_error st) t s ∙ cfg-parse_error st)
  | inr (bits, e) ↦ rw (e, log_type) (cfg-log_type st (or_bits t bits) s)
]

Keeps-trans : (st st' : Parser) (r : Option Parser) → st'.cfg ≡ st.cfg → Keeps st' r → Keeps st r
unfolding Keeps
Keeps-trans st st' none e k = tt
Keeps-trans st st' (some r) e k = k ∙ e

add_rules-Keeps :
    (st : Parser) (file : Option Text) (type : ℕ) (chans : List Text)
    → Keeps st (add_rules st file type chans)
unfolding add_rules Keeps
add_rules-Keeps st file type [] = refl
add_rules-Keeps st file type (chan ∷ chans) =
    elim (Option-cases (log_name file chan (st.cfg.texts (codes "logsuffix")))) [
      | inl e ↦ elim (Bool-cases (has_entry chan st.chanlog_list)) [
        | inl f ↦ rw (e, f, add_rules) refl
        | inr f ↦ rw (e, f, add_rules) tt
      ]
      | inr (name, e) ↦ elim (Bool-cases (has_entry chan st.chanlog_list)) [
        | inl f ↦ rw (e, f, add_rules) refl
        | inr f ↦
            let e' : ChanlogEntry = record { channel = chan; type = type; filename = name } in
            rw (e, f, add_rules)
              (add_rules-Keeps (record st { chanlog_list = e' ∷ st.chanlog_list }) file type chans)
      ]
    ]

chanlog_add_rule-Keeps :
    (st : Parser) (channels file : Option Text) (type : ℕ)
    → Keeps st (chanlog_add_rule st channels file type)
unfolding chanlog_add_rule Keeps
chanlog_add_rule-Keeps st none file type = refl
chanlog_add_rule-Keeps st (some channels) file type = elim (Bool-cases (is_empty channels)) [
  | inl e ↦ rw (e, chanlog_add_rule) refl
  | inr e ↦ elim (Bool-cases (text_eq channels (codes "*"))) [
    | inl f ↦ rw (e, f, chanlog_add_rule) refl
    | inr f ↦
        rw (e, f, chanlog_add_rule)
          (add_rules-Keeps st (if has_comma channels then none else file) type (tokens [] channels))
  ]
]

pub wrapped-Keeps :
    (st : Parser) (r : Option Parser)
    → Keeps st r
    → KeepsPair st (elim r [ none ↦ none | some st' ↦ some (st', right) ])
unfolding Keeps KeepsPair
wrapped-Keeps st none k = tt
wrapped-Keeps st (some st') k = k

chanlog_line-KeepsPair :
    (st : Parser) (params : List (Option Text)) → KeepsPair st (chanlog_line st params)
unfolding chanlog_line KeepsPair
chanlog_line-KeepsPair st params = elim (Option-cases (param params 1)) [
  | inl e ↦ rw (e, chanlog_line) tt
  | inr (letters, e) ↦
      let (st', t) = log_type st 0 letters in
      rw (e, chanlog_line)
        (wrapped-Keeps st _ (
          Keeps-trans st st' _ (cfg-log_type st 0 letters)
            (chanlog_add_rule-Keeps st' (param params 0) (param params 2) t)))
]

cfg-channel_line :
    (st : Parser) (params : List (Option Text)) → (channel_line st params).0.cfg ≡ st.cfg
unfolding channel_line
cfg-channel_line st params = ground arith

onconnect_add-Keeps :
    (st : Parser) (c : ℕ) (target data' : Option Text) → Keeps st (onconnect_add st c target data')
unfolding onconnect_add Keeps
onconnect_add-Keeps st c target data' = elim (Bool-cases (c == b'p' || c == b'n')) [
  | inr e ↦ elim (Bool-cases (c == b'r')) [
    | inl f ↦ rw (e, f, onconnect_add) refl
    | inr f ↦ rw (e, f, onconnect_add) refl
  ]
  | inl e ↦ elim (Option-cases target) [
    | inl f ↦ rw (e, f, onconnect_add) tt
    | inr (t, f) ↦ elim (Option-cases data') [
      | inl g ↦ rw (e, f, g, onconnect_add) tt
      | inr (d, g) ↦ rw (e, f, g, onconnect_add) refl
    ]
  ]
]

onconnect_line-KeepsPair :
    (st : Parser) (params : List (Option Text)) → KeepsPair st (onconnect_line st params)
unfolding onconnect_line KeepsPair
onconnect_line-KeepsPair st params = elim (Option-cases (param params 0)) [
  | inl e ↦ rw (e, onconnect_line) tt
  | inr (type, e) ↦
      let c = head0 type in
      elim (Bool-cases (c == b'p' || c == b'n' || c == b'r')) [
        | inl f ↦
            rw (e, f, onconnect_line)
              (wrapped-Keeps st _ (onconnect_add-Keeps st c (param params 1) (param params 2)))
        | inr f ↦ rw (e, f, onconnect_line) refl
      ]
]

targeted-KeepsPair : (st : Parser) (t : Option Target) → KeepsPair st (targeted st t)
unfolding KeepsPair
targeted-KeepsPair st none = tt
targeted-KeepsPair st (some t) = refl

pub process-KeepsPair :
    (st : Parser) (k : ListKind) (params : List (Option Text)) → KeepsPair st (process st k params)
unfolding process KeepsPair
process-KeepsPair st cfg_invalid params = refl
process-KeepsPair st cfg_nolist params = refl
process-KeepsPair st cfg_nicknames params = elim (Bool-cases (length params == 1)) [
  | inl e ↦ rw e refl
  | inr e ↦ rw e refl
]
process-KeepsPair st cfg_servers params = elim (Bool-cases (ltb 4 (length params))) [
  | inl e ↦ rw e refl
  | inr e ↦ rw e (cfg-server_line st params)
]
process-KeepsPair st cfg_connhosts params = refl
process-KeepsPair st cfg_ignore params = refl
process-KeepsPair st cfg_automodelist params = elim (Bool-cases (ltb 2 (length params))) [
  | inl e ↦ rw e refl
  | inr e ↦ rw e (targeted-KeepsPair st (automode_line (param params 0)))
]
process-KeepsPair st cfg_chanlog params =
    elim (Bool-cases (ltb (length params) 2 || ltb 3 (length params))) [
      | inl e ↦ rw e refl
      | inr e ↦ rw e (chanlog_line-KeepsPair st params)
    ]
process-KeepsPair st cfg_channels params = elim (Bool-cases (ltb 2 (length params))) [
  | inl e ↦ rw e refl
  | inr e ↦ rw e (cfg-channel_line st params)
]
process-KeepsPair st cfg_onconnect params = elim (Bool-cases (ltb 3 (length params))) [
  | inl e ↦ rw e refl
  | inr e ↦ rw e (onconnect_line-KeepsPair st params)
]
