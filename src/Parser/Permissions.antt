-- ===== src/Parser/Permissions.antt =====
-- What a permission that is no Boolean does.
use miau.Prelude.{ℕ, ◌≡◌, ◌∙◌, refl, ap, Option, some, none, [], ◌∷◌, ◌++◌, Text, arith}
use miau.Perm.{add_perm}
use miau.Parser.{Parser, cfg_ignore, parse_error, assign_boolean, parse_option, trues, falses}
use miau.Parser.Lists.{max_params}
use miau.Parser.Lines.{add_to, or_left, perm_line}

ignorelist-parse_error : (st : Parser) → (parse_error st).ignorelist ≡ st.ignorelist
unfolding parse_error
ignorelist-parse_error st = ground arith

no_boolean :
    (st : Parser) (word : Text)
    → parse_option (some word) trues ≡ none
    → parse_option (some word) falses ≡ none
    → assign_boolean st (some word) ≡ (parse_error st, none)
unfolding assign_boolean
no_boolean st word e f = rw (e, f, assign_boolean) refl

-- An entry of the lists of permissions with a permission that is no Boolean is reported, and is added
-- all the same, with the number of parameters that a line may have as its permission.
pub perm_line_no_boolean :
    (st : Parser) (name word : Text)
    → parse_option (some word) trues ≡ none
    → parse_option (some word) falses ≡ none
    → (perm_line st cfg_ignore (some name ∷ some word ∷ [])).ignorelist
      ≡ st.ignorelist ++ record { name = name; allowed = max_params } ∷ []
unfolding perm_line assign_boolean parse_error add_to add_perm
perm_line_no_boolean st name word e f =
    ap
      (λ (r : Parser × Option ℕ).
        (or_left r max_params).0.ignorelist
        ++ record { name = name; allowed = (or_left r max_params).1 } ∷ [])
      (no_boolean st word e f)
    ∙ ap (λ l. l ++ record { name = name; allowed = max_params } ∷ []) (ignorelist-parse_error st)
