-- ===== src/Parser/Params.antt =====
-- Reading the parameters of a line back: a line that lists quoted texts gives these texts, as long as
-- the array has room for them.
use miau.Prelude.{
  ℕ, suc, ◌+◌, ◌-◌, ◌≡◌, ◌≢◌, ◌∙◌, refl, ap, inl, inr, Bool, true, false, not, ◌&&◌, Option, some,
  none, List, [], ◌∷◌, ◌++◌, append_assoc, append-nil, map, Text, head0, All, ltb, leb, ◌==◌,
  if◌then◌else◌, take, drop, get_or, length, length-append, arith, Bool-cases, ==_ne,
}
use miau.Parser.{trim, spaces, is_space, is_empty, skip_space, trim_end, last0}
use miau.Parser.Lists.{scanned, scan, end_param, max_params, may_end}

pub quote : Text → Text
quote p = b'"' ∷ (p ++ b'"' ∷ [])

-- Texts in quotes with colons between them.
pub listed : Text → List Text → Text
listed p [] = quote p
listed p (q ∷ ps) = quote p ++ b':' ∷ listed q ps

abbrev pub NoQuote : Text → Type 0
NoQuote p = All (λ c. c ≢ b'"') p

and_false : (b : Bool) → (b && false) ≡ false
and_false true = refl
and_false false = refl

-- A character that does not end the parameter.
scan-step :
    (c inside : ℕ) (s par : Text) (params : List (Option Text))
    → (c == b':' && may_end inside) ≡ false
    → scan par inside params (c ∷ s)
      ≡ scan (par ++ c ∷ []) (if c == b'"' then suc inside else inside) params s
unfolding scan
scan-step c inside s par params h = rw (h, scan) refl

-- Inside quotes, no character ends it.
scan-inside :
    (p s par : Text) (params : List (Option Text))
    → NoQuote p
    → scan par 1 params (p ++ s) ≡ scan (par ++ p) 1 params s
scan-inside [] s par params q = rw (append-nil par) refl
scan-inside (c ∷ p) s par params (ne, q) =
    scan-step c 1 (p ++ s) par params (and_false (c == b':'))
    ∙ rw (==_ne c b'"' ne)
        (scan-inside p s (par ++ c ∷ []) params q ∙ rw (append_assoc par (c ∷ []) p) refl)

-- A text in quotes is gathered whole.
scan-quote :
    (p s : Text) (params : List (Option Text))
    → NoQuote p
    → scan [] 0 params (quote p ++ s) ≡ scan (quote p) 2 params s
unfolding quote
scan-quote p s params q =
    scan-step b'"' 0 ((p ++ b'"' ∷ []) ++ s) [] params refl
    ∙ rw (append_assoc p (b'"' ∷ []) s)
        (scan-inside p (b'"' ∷ s) (b'"' ∷ []) params q ∙ scan-step b'"' 1 s (b'"' ∷ p) params refl)

trim_end-last : (x : Text) (c : ℕ) → is_space c ≡ false → trim_end (x ++ c ∷ []) ≡ x ++ c ∷ []
unfolding trim_end
trim_end-last [] c h = rw h refl
trim_end-last (d ∷ []) c h = rw (h) (rw (and_false (is_space d)) refl)
trim_end-last (d ∷ e ∷ x) c h = rw (trim_end-last (e ∷ x) c h) (rw (and_false (is_space d)) refl)

trim-quote : (p : Text) → trim (quote p) spaces ≡ quote p
unfolding trim skip_space quote
trim-quote p = trim_end-last (b'"' ∷ p) b'"' refl

get_or-end : (x : Text) (c : ℕ) → get_or (x ++ c ∷ []) (length x) 0 ≡ c
get_or-end [] c = refl
get_or-end (d ∷ x) c = get_or-end x c

take_first : (x y : Text) → take (length x) (x ++ y) ≡ x
take_first [] y = refl
take_first (d ∷ x) y = ap (λ t. d ∷ t) (take_first x y)

minus_one : (p : Text) → length (quote p) - 1 ≡ suc (length p)
unfolding quote
minus_one p = omega (arith, length-append p (b'"' ∷ []))

minus_two : (p : Text) → length (quote p) - 2 ≡ length p
unfolding quote
minus_two p = omega (arith, length-append p (b'"' ∷ []))

last0-quote : (p : Text) → last0 (quote p) ≡ b'"'
unfolding quote
last0-quote p = rw (minus_one p) (get_or-end p b'"')

take-quote : (p : Text) → take (length (quote p) - 2) (drop 1 (quote p)) ≡ p
unfolding quote
take-quote p = rw (minus_two p) (take_first p (b'"' ∷ []))

-- `end_param` once the text is trimmed.
trimmed : Text → List (Option Text) → Option (Option (List (Option Text)))
trimmed p params =
    if is_empty p
    then some (some (params ++ none ∷ []))
    else if not (last0 p == b'"' && head0 p == b'"')
    then some none
    else if ltb (length params) max_params
    then some (some (params ++ some (take (length p - 2) (drop 1 p)) ∷ []))
    else none

end_param-trimmed :
    (par : Text) (params : List (Option Text))
    → end_param par params ≡ trimmed (trim par spaces) params
unfolding end_param trimmed
end_param-trimmed par params = refl

trimmed-quote :
    (p : Text) (params : List (Option Text))
    → trimmed (quote p) params
      ≡ (if ltb (length params) 4 then some (some (params ++ some p ∷ [])) else none)
unfolding trimmed quote
trimmed-quote p params = rw (last0-quote p) (rw (take-quote p) refl)

end_param-quote :
    (p : Text) (params : List (Option Text))
    → end_param (quote p) params
      ≡ (if ltb (length params) 4 then some (some (params ++ some p ∷ [])) else none)
end_param-quote p params =
    end_param-trimmed (quote p) params ∙ rw (trim-quote p) (trimmed-quote p params)

-- The scan from the end of a parameter in quotes on.
scan-end :
    (p : Text) (params : List (Option Text))
    → scan (quote p) 2 params []
      ≡ (if ltb (length params) 4 then some (scanned (params ++ some p ∷ []) 0) else none)
unfolding scan
scan-end p params = elim (Bool-cases (ltb (length params) 4)) [
  | inl e ↦ rw (end_param-quote p params, scan) (rw e refl)
  | inr e ↦ rw (end_param-quote p params, scan) (rw e refl)
]

scan-next :
    (p s : Text) (params : List (Option Text))
    → scan (quote p) 2 params (b':' ∷ s)
      ≡ (if ltb (length params) 4 then scan [] 0 (params ++ some p ∷ []) s else none)
unfolding scan
scan-next p s params = elim (Bool-cases (ltb (length params) 4)) [
  | inl e ↦ rw (end_param-quote p params, scan) (rw e refl)
  | inr e ↦ rw (end_param-quote p params, scan) (rw e refl)
]

room : (n : ℕ) → ltb n 4 ≡ leb (n + 1) 4
room n = ground arith

no_room : (n k : ℕ) → ltb n 4 ≡ false → leb (n + suc (suc k)) 4 ≡ false
no_room n k h = ground arith

more_room :
    (params : List (Option Text)) (p : Option Text) (k : ℕ)
    → length (params ++ p ∷ []) + suc k ≡ length params + suc (suc k)
more_room params p k = omega (arith, length-append params (p ∷ []))

-- A line that lists texts without quotes, each in quotes, is read as these texts where they are four
-- at most, with those that were read before: and it is written behind the array where they are more.
pub scan-listed :
    (p : Text) (ps : List Text) (params : List (Option Text))
    → NoQuote p
    → All NoQuote ps
    → scan [] 0 params (listed p ps) ≡ (
        if leb (length params + suc (length ps)) 4
        then some (scanned (params ++ map some (p ∷ ps)) 0)
        else none)
unfolding listed
scan-listed p [] params q qs =
    (rw (append-nil (quote p)) at (scan-quote p [] params q))
    ∙ (scan-end p params ∙ rw (room (length params)) refl)
scan-listed p (r ∷ ps) params q (qr, qs) =
    scan-quote p (b':' ∷ listed r ps) params q
    ∙ (scan-next p (listed r ps) params ∙ elim (Bool-cases (ltb (length params) 4)) [
      | inl e ↦ rw e (
          scan-listed r ps (params ++ some p ∷ []) qr qs
          ∙ rw
              (
                more_room params (some p) (length ps),
                append_assoc params (some p ∷ []) (map some (r ∷ ps)),
              )
              refl)
      | inr e ↦ rw (e, no_room (length params) (length ps) e) refl
    ])
