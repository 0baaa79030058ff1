-- ===== src/Onconnect/Examples.antt =====
-- The lines of two rules at a connection that may send one at once.
use miau.Prelude.{◌≡◌, refl, inl, some, List, [], ◌∷◌, ◌++◌, map, Text, codes}
use miau.Prelude.Int.{pos}
use miau.Irc.{Flood, message}
use miau.Irc.Order.{backlog}
use miau.Onconnect.{onconnect_do, backlog-onconnect_do}

abbrev idle : Flood
idle = record { msgtimer = pos 2; msg_queue = []; sent = []; floodtime = 0 }

abbrev lines : List Text
lines = codes "JOIN #a" ∷ codes "NOTICE x :hi" ∷ []

backlog-onconnect_do_example :
    (after : Flood) × (onconnect_do (map some lines) idle ≡ some after)
    × (backlog after ≡ backlog idle ++ map message lines)
backlog-onconnect_do_example = backlog-onconnect_do lines idle (inl refl)
