-- ===== src/Commands/Hash.antt =====
-- The hash is below the number of buckets and does not see the case of letters.
use Prim.Native.Nat.{bit_and}
use miau.Prelude.{
  ℕ, zero, suc, ◌+◌, ◌%◌, ◌<◌, ◌≡◌, refl, ap, ◌∙◌, sym, Bool, true, false, [], ◌∷◌, Text, ◌==◌, All,
  arith, ℕ_discrete, if◌then◌else◌,
}
use miau.Tools.{to_lower, lowcase}
use miau.Common.{same_nocase}
use miau.Common.Laws.{same_nocase_iff}
use miau.Commands.{max_cmd, hash_from, command_hash}

abbrev pub IsBytes : Text → Type 0
IsBytes = All (λ c. c < 256)

-- The mask does not see the case of the bytes from `n - 1` down to 0.
mask_agrees : ℕ → Bool
mask_agrees zero = true
mask_agrees (suc c) = if bit_and (to_lower c) 0xDF == bit_and c 0xDF then mask_agrees c else false

mask_agrees-bytes : mask_agrees 256 ≡ true
unfolding mask_agrees to_lower
mask_agrees-bytes = refl

mask-to_lower_below :
    (n c : ℕ) → c < n → mask_agrees n ≡ true → bit_and (to_lower c) 0xDF ≡ bit_and c 0xDF
unfolding mask_agrees
mask-to_lower_below zero c lt h = elim lt [ ]
mask-to_lower_below (suc n) c lt h = elim (ℕ_discrete c n) [
  | yes e ↦ rw e (ground arith)
  | no ne ↦ mask-to_lower_below n c (omega arith) (ground arith)
]

mask-to_lower : (c : ℕ) → c < 256 → bit_and (to_lower c) 0xDF ≡ bit_and c 0xDF
mask-to_lower c h = mask-to_lower_below 256 c h mask_agrees-bytes

hash_from-lowcase : (n : ℕ) (p : Text) → IsBytes p → hash_from n (lowcase p) ≡ hash_from n p
unfolding hash_from lowcase
hash_from-lowcase n [] h = refl
hash_from-lowcase n (c ∷ p) h =
    hash_from-lowcase (n + bit_and (to_lower c) 0xDF) p h.1
    ∙ ap (λ m. hash_from (n + m) p) (mask-to_lower c h.0)

pub command_hash-lt : (p : Text) → command_hash p < max_cmd
unfolding command_hash
command_hash-lt p = omega arith

-- Names that differ only in case stand in one bucket.
pub command_hash-nocase :
    (p q : Text) → IsBytes p → IsBytes q → same_nocase p q ≡ true → command_hash p ≡ command_hash q
unfolding command_hash
command_hash-nocase p q hp hq same =
    ap (λ n. n % max_cmd)
      (sym (hash_from-lowcase 0 p hp)
        ∙ ap (hash_from 0) ((same_nocase_iff p q).0 same)
        ∙ hash_from-lowcase 0 q hq)
