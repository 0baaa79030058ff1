-- ===== src/Parser/Assigned.antt =====
-- Reading a value or a line with a setting keeps the numbers in range.
use miau.Prelude.{
  ℕ, suc, ◌+◌, ◌<◌, ◌≡◌, refl, inl, inr, true, false, not, ◌||◌, Option, some, List, [], ◌∷◌, Text,
  codes, head0, ◌==◌, if◌then◌else◌, take, drop, length, arith, Bool-cases, Option-cases, lt→ltb,
}
use miau.Prelude.Int.{ℤ, pos, negsuc}
use miau.Tools
use miau.Parser.{
  Parser, trim, spaces, trimquotes, parse_error, int_lt, assign_int, assign_boolean, assign_option,
  strtol, out_of_range, to_int, parse_option, option_from, trues, falses,
}
use miau.Parser.Settings.{
  Kind, text, boolean, character, format, integer, one_of, settings, find_setting, set_text,
  keep_or, as_int, assign, begin_list, set_param, parse_param, has_space, has_part,
}
use miau.Parser.Range.{
  same_cfg-InRange, kind_of, fits, InRange, fields_agree, found_agrees, parse_error-InRange,
  set_int-InRange,
}

int_lt_irrefl : (n : ℤ) → int_lt n n ≡ false
int_lt_irrefl (pos n) = ground arith
int_lt_irrefl (negsuc n) = ground arith

not_below : (n min : ℤ) → not (int_lt (if int_lt n min then min else n) min) ≡ true
not_below n min = elim (Bool-cases (int_lt n min)) [
  | inl e ↦ rw e (rw (int_lt_irrefl min) refl)
  | inr e ↦ rw e (rw e refl)
]

assign_int-InRange :
    (st : Parser) (field val : Text) (min : ℤ)
    → kind_of field ≡ integer min
    → InRange st
    → InRange (keep_or field (assign_int st (some val) min))
unfolding assign_int InRange fits
assign_int-InRange st field val min k h =
    elim (Bool-cases (st.erange || out_of_range (strtol val))) [
      | inl e ↦ rw (e, assign_int) (parse_error-InRange (record st { erange = true }) h)
      | inr e ↦
          rw (e, assign_int)
            (set_int-InRange st field _ (rw k (not_below (to_int (strtol val)) min)) h)
    ]

option_from-length :
    (i : ℕ) (val : Text) (options : List Text) (t : ℕ)
    → option_from i val options ≡ some t
    → t < i + length options
unfolding option_from
option_from-length i val [] t h = ground arith
option_from-length i val (o ∷ options) t h =
    ground (arith, option_from-length (suc i) val options t)

parse_option-length :
    (val : Text) (options : List Text) (t : ℕ)
    → parse_option (some val) options ≡ some t
    → t < length options
unfolding parse_option
parse_option-length [] options t h = ground arith
parse_option-length (c ∷ val) options t h =
    omega (arith, option_from-length 0 (c ∷ val) options t h)

assign_option-InRange :
    (st : Parser) (field val : Text) (options : List Text)
    → kind_of field ≡ one_of options
    → InRange st
    → InRange (keep_or field (as_int (assign_option st (some val) options)))
unfolding assign_option fits
assign_option-InRange st field val options k h =
    elim (Option-cases (parse_option (some val) options)) [
      | inl e ↦ rw (e, assign_option) (parse_error-InRange st h)
      | inr (t, e) ↦
          rw (e, assign_option)
            (set_int-InRange st field (pos t)
              (rw k (lt→ltb t (length options) (parse_option-length val options t e))) h)
    ]

assign_boolean-InRange :
    (st : Parser) (field val : Text)
    → kind_of field ≡ boolean
    → InRange st
    → InRange (keep_or field (as_int (assign_boolean st (some val))))
unfolding assign_boolean fits
assign_boolean-InRange st field val k h = elim (Option-cases (parse_option (some val) trues)) [
  | inr (t, e) ↦ rw (e, assign_boolean) (set_int-InRange st field (pos 1) (rw k refl) h)
  | inl e ↦ elim (Option-cases (parse_option (some val) falses)) [
    | inr (t, f) ↦ rw (e, f, assign_boolean) (set_int-InRange st field (pos 0) (rw k refl) h)
    | inl f ↦ rw (e, f, assign_boolean) (parse_error-InRange st h)
  ]
]

set_text-InRange :
    (st : Parser) (field : Text) (v : Option Text) → InRange st → InRange (set_text st field v)
unfolding InRange set_text
set_text-InRange st field v h f = h f

pub assign-InRange :
    (st : Parser) (field val : Text) (k : Kind)
    → kind_of field ≡ k
    → InRange st
    → InRange (assign st field val k)
unfolding assign fits
assign-InRange st field val text e h = set_text-InRange st field _ h
assign-InRange st field val boolean e h = assign_boolean-InRange st field val e h
assign-InRange st field val character e h = set_int-InRange st field _ (rw e refl) h
assign-InRange st field val format e h = elim (Bool-cases (has_part val (codes "%s"))) [
  | inl t ↦ rw (t, assign) (set_text-InRange st field _ h)
  | inr t ↦ rw (t, assign) (parse_error-InRange st h)
]
assign-InRange st field val (integer min) e h = assign_int-InRange st field val min e h
assign-InRange st field val (one_of options) e h = assign_option-InRange st field val options e h

set_param-InRange : (st : Parser) (key val : Text) → InRange st → InRange (set_param st key val)
unfolding set_param
set_param-InRange st key val h = elim (Option-cases (trimquotes val)) [
  | inl e ↦ rw (e, set_param) (parse_error-InRange st h)
  | inr (v, e) ↦ elim (Option-cases (find_setting key settings)) [
    | inl f ↦ rw (e, f, set_param) (parse_error-InRange st h)
    | inr (s, f) ↦
        rw (e, f, set_param)
          (assign-InRange st s.field v s.kind (found_agrees key settings s fields_agree f) h)
  ]
]

cfg-begin_list : (st : Parser) (key val : Text) → (begin_list st key val).cfg ≡ st.cfg
unfolding begin_list parse_error
cfg-begin_list st key val = ground arith

-- A line with its key and its value.
keyed-InRange :
    (st : Parser) (key val : Text)
    → InRange st
    → InRange (
        if has_space key
        then parse_error st
        else if head0 val == b'{'
        then begin_list st key val
        else set_param st key val)
keyed-InRange st key val h = elim (Bool-cases (has_space key)) [
  | inl f ↦ rw f (parse_error-InRange st h)
  | inr f ↦ elim (Bool-cases (head0 val == b'{')) [
    | inl g ↦ rw (f, g) (same_cfg-InRange st (begin_list st key val) (cfg-begin_list st key val) h)
    | inr g ↦ rw (f, g) (set_param-InRange st key val h)
  ]
]

-- Whatever a line with a setting says, each number of the configuration stays in the range of its
-- setting: not below its least value, a Boolean, or the index of one of its options.
pub parse_param-InRange : (st : Parser) (line : Text) → InRange st → InRange (parse_param st line)
unfolding parse_param
parse_param-InRange st line h = elim (Option-cases (miau.Tools.pos line b'=')) [
  | inl e ↦ rw (e, parse_param) (parse_error-InRange st h)
  | inr (i, e) ↦
      rw (e, parse_param)
        (keyed-InRange st (trim (take i line) spaces) (trim (drop (suc i) line) spaces) h)
]
