-- ===== src/Dcc/Request.antt =====
-- src/dcc.c: requests of a client. The words of a request are what is behind each of its spaces.
use miau.Prelude.{
  ℕ, zero, suc, ◌+◌, ◌-◌, ◌*◌, ◌%◌, ◌^◌, Bool, ◌&&◌, ◌||◌, Option, none, some, List, [], ◌∷◌, Text,
  codes, text_eq, ltb, leb, ◌==◌, if◌then◌else◌, length, take, drop, head0,
}
use miau.Prelude.Strings.{◌>>=◌, run_not}
use miau.Tools.{upcase}
use miau.Miau.{skip_spaces}
use miau.Dcc.{Dccs}

-- The texts that the loop stops at: behind each space that something follows.
unfoldable pub chops : Text → List Text
chops [] = []
chops (c ∷ []) = []
chops (c ∷ d ∷ s) = let rest = chops (d ∷ s) in if c == b' ' then (d ∷ s) ∷ rest else rest

abbrev pub digits_at : ℕ → Text → ℕ
digits_at n [] = n
digits_at n (c ∷ s) = if leb b'0' c && leb c b'9' then digits_at (n * 10 + (c - b'0')) s else n

abbrev pub has_sign : ℕ → Bool
has_sign c = c == b'+' || c == b'-'

-- `strtoul` for base 10 with a long of 64 bits, stored in an int and read as unsigned; `none` where
-- there are no digits.
unfoldable pub strtoul : Text → Option ℕ
strtoul s =
    let t = skip_spaces s in
    let sign = head0 t in
    let u = if has_sign sign then drop 1 t else t in
    let c = head0 u in
    let n = digits_at 0 u in
    if leb b'0' c && leb c b'9'
    then some (
        if leb (2 ^ 64) n
        then 2 ^ 32 - 1
        else if sign == b'-'
        then (2 ^ 64 - n) % 2 ^ 32
        else n % 2 ^ 32)
    else none

pub record Request : Type 0 where
  pub type : Text
  pub arg1 : Text
  pub args : List ℕ
  pub argc : ℕ

abbrev pub word_at : Text → Text
word_at s = take (run_not b' ' s) s

-- The numbers behind the name: three are read, and what follows is counted.
unfoldable pub numbers : ℕ → List Text → Option (List ℕ)
unfolding strtoul
numbers zero chops' = some []
numbers (suc n) [] = some []
numbers (suc n) (s ∷ chops') = strtoul s >>= (λ k. numbers n chops' >>= (λ ks. some (k ∷ ks)))

-- The type has 15 characters at most, in upper case.
unfoldable pub read_request : Text → Option Request
unfolding chops numbers upcase
read_request param = elim (chops param) as (λ _. Option Request) [
  | [] ↦ none
  | type ∷ [] ↦ none
  | type ∷ arg1 ∷ rest ↦
      if ltb (length rest) 2
      then none
      else numbers 3 rest >>= (λ ks. some (record {
        type = upcase (word_at (take 15 type));
        arg1 = word_at arg1;
        args = ks;
        argc = suc (suc (length rest));
      }))
]

abbrev pub arg_at : ℕ → List ℕ → ℕ
arg_at i [] = 0
arg_at zero (k ∷ ks) = k
arg_at (suc i) (k ∷ ks) = arg_at i ks

-- The first connection with a port: of the side that listens for RESUME, of the other one for ACCEPT. The
-- request goes on with the port that the other side knows the connection by.
unfoldable pub other_port : Bool → ℕ → Dccs → Option ℕ
other_port resume port [] = none
other_port resume port (none ∷ dccs) = other_port resume port dccs
other_port resume port (some b ∷ dccs) =
    let later = other_port resume port dccs in
    if resume
    then (if b.srcport == port then some b.destport else later)
    else if b.destport == port
    then some b.srcport
    else later

-- What a request becomes: with its name, a port and the last number; a new one with its type as well.
pub data DccAnswer : Type 0 where
  resumed accepted : Text → ℕ → ℕ → DccAnswer
  begun : Text → Text → ℕ → Option ℕ → DccAnswer
  unchanged : DccAnswer

abbrev pub is_resume : Text → Bool
is_resume type = text_eq type (codes "RESUME")

unfoldable pub dcc_resume : Request → Dccs → Option DccAnswer
unfolding other_port
dcc_resume dcc dccs = other_port (is_resume dcc.type) (arg_at 0 dcc.args) dccs >>= (λ port. some (
    if is_resume dcc.type
    then resumed dcc.arg1 port (arg_at 1 dcc.args)
    else accepted dcc.arg1 port (arg_at 1 dcc.args)))
