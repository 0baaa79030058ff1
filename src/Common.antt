-- ===== src/Common.antt =====
-- src/common.c: the string tests that allow NULL, which is `none`. Each says whether the C function
-- returns 0; the program uses no more of its result.
pub mod Laws
use miau.Prelude.{
  ℕ, zero, suc, Bool, true, false, ◌&&◌, Option, none, some, [], ◌∷◌, Text, text_eq, ◌==◌,
}
use miau.Tools.{lowcase}

-- `strncmp` of the C library: at most `n` characters, the terminator one of them.
abbrev pub strncmp_zero : Text → Text → ℕ → Bool
strncmp_zero s t zero = true
strncmp_zero [] [] (suc n) = true
strncmp_zero [] (d ∷ t) (suc n) = false
strncmp_zero (c ∷ s) [] (suc n) = false
strncmp_zero (c ∷ s) (d ∷ t) (suc n) = (c == d) && strncmp_zero s t n

unfoldable pub xstrcmp : Option Text → Option Text → Bool
xstrcmp (some s) (some t) = text_eq s t
xstrcmp none t = false
xstrcmp (some s) none = false

unfoldable pub xstrncmp : Option Text → Option Text → ℕ → Bool
xstrncmp (some s) (some t) n = strncmp_zero s t n
xstrncmp none t n = false
xstrncmp (some s) none n = false

unfoldable pub xstrcasecmp : Option Text → Option Text → Bool
unfolding lowcase
xstrcasecmp (some s) (some t) = text_eq (lowcase s) (lowcase t)
xstrcasecmp none t = false
xstrcasecmp (some s) none = false

-- The common use, on two texts that are there.
unfoldable pub same_nocase : Text → Text → Bool
unfolding xstrcasecmp
same_nocase s t = xstrcasecmp (some s) (some t)
