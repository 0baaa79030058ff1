-- ===== src/Parser/Range.antt =====
-- The numbers of the configuration: each field keeps to the range that its setting gives.
use miau.Prelude.{
  ◌≡◌, inl, inr, Bool, true, false, not, ◌||◌, some, List, [], ◌∷◌, Text, text_eq, text_eq→eq, All,
  ltb, ◌==◌, if◌then◌else◌, length, arith, Bool-cases,
}
use miau.Prelude.Int.{ℤ, pos, negsuc}
use miau.Parser.{Parser, parse_error, int_lt}
use miau.Parser.Settings.{
  Kind, text, boolean, character, format, integer, one_of, Setting, settings, find_setting, set_int,
}

-- The kind of the first setting that fills the field.
unfoldable pub kind_in : Text → List Setting → Kind
kind_in f [] = text
kind_in f (s ∷ rest) = let later = kind_in f rest in if text_eq s.field f then s.kind else later

unfoldable pub kind_of : Text → Kind
unfolding kind_in
kind_of f = kind_in f settings

-- What a setting of a kind may hold: a number that is not below its least, a Boolean, or the index of
-- an option.
unfoldable pub fits : Kind → ℤ → Bool
fits (integer min) v = not (int_lt v min)
fits boolean (pos n) = n == 0 || n == 1
fits boolean (negsuc n) = false
fits (one_of options) (pos n) = ltb n (length options)
fits (one_of options) (negsuc n) = false
fits text v = true
fits character v = true
fits format v = true

unfoldable pub InRange : Parser → Type 0
InRange st = (f : Text) → fits (kind_of f) (st.cfg.ints f) ≡ true

-- No two settings fill one field in two ways.
pub fields_agree : All (λ (s : Setting). kind_of s.field ≡ s.kind) settings
unfolding kind_of
fields_agree = ground arith

pub found_agrees :
    (key : Text) (rows : List Setting) (s : Setting)
    → All (λ (r : Setting). kind_of r.field ≡ r.kind) rows
    → find_setting key rows ≡ some s
    → kind_of s.field ≡ s.kind
unfolding find_setting
found_agrees key [] s agree h = ground arith
found_agrees key (r ∷ rows) s (a, agree) h = elim (Bool-cases (text_eq key r.key)) [
  | inl e ↦ carry r s (rw (e, find_setting) at h) a
  | inr e ↦ found_agrees key rows s agree (rw (e, find_setting) at h)
]
  where
    carry : (r s : Setting) → some r ≡ some s → kind_of r.field ≡ r.kind → kind_of s.field ≡ s.kind
    carry r s e a = cc

pub cfg-parse_error : (st : Parser) → (parse_error st).cfg ≡ st.cfg
unfolding parse_error
cfg-parse_error st = ground arith

pub parse_error-InRange : (st : Parser) → InRange st → InRange (parse_error st)
unfolding InRange
parse_error-InRange st h f = rw (cfg-parse_error st) (h f)

pub set_int-InRange :
    (st : Parser) (field : Text) (v : ℤ)
    → fits (kind_of field) v ≡ true
    → InRange st
    → InRange (set_int st field v)
unfolding InRange set_int
set_int-InRange st field v fit h f = elim (Bool-cases (text_eq field f)) [
  | inl e ↦ rw e (rw⁻¹ (text_eq→eq field f e) fit)
  | inr e ↦ rw e (h f)
]

pub same_cfg-InRange : (st st' : Parser) → st'.cfg ≡ st.cfg → InRange st → InRange st'
unfolding InRange
same_cfg-InRange st st' e h f = rw e (h f)
