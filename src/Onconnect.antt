-- ===== src/Onconnect.antt =====
-- src/onconnect.c: the lines that are sent once miau is connected. The rules of the configuration add them,
-- onconnect_add in Parser/Lists.antt; here they are sent, through the flood control.
mod Examples
use miau.Prelude.{
  ◌≡◌, ◌∙◌, refl, sym, ap, Option, none, some, List, [], ◌∷◌, ◌++◌, Text, map, append-nil,
  append_assoc,
}
use miau.Irc.{Flood, irc_write, message}
use miau.Irc.Order.{Ordered, backlog, backlog-irc_write, write-Ordered}

-- `none` is a fault: a line that is NULL is given to `vsnprintf` for a text.
unfoldable pub onconnect_do : List (Option Text) → Flood → Option Flood
unfolding irc_write
onconnect_do [] st = some st
onconnect_do (none ∷ actions) st = none
onconnect_do (some data' ∷ actions) st = onconnect_do actions (irc_write st data')

-- Where messages wait only if none can be sent at once: all lines are sent or wait behind those that did,
-- in the order of the rules, none lost and none twice.
pub backlog-onconnect_do :
    (lines : List Text) (st : Flood)
    → Ordered st
    → (after : Flood) × (onconnect_do (map some lines) st ≡ some after)
      × (backlog after ≡ backlog st ++ map message lines)
unfolding onconnect_do
backlog-onconnect_do [] st o = (st, refl, sym (append-nil (backlog st)))
backlog-onconnect_do (line ∷ lines) st o =
    let (after, done, all) =
      backlog-onconnect_do lines (irc_write st line) (write-Ordered st line o) in
    (
      after,
      done,
      all
          ∙ ap (λ l. l ++ map message lines) (backlog-irc_write st line o)
          ∙ append_assoc (backlog st) (message line ∷ []) (map message lines),
    )
