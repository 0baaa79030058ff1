-- ===== src/Irc/Examples.antt =====
-- Runs of the flood control, the table of sockets and the line reader, and the theorems at concrete
-- states.
use miau.Prelude.{
  ℕ, zero, suc, ◌+◌, ◌*◌, ◌≡◌, ◌≤◌, refl, inl, inr, List, [], ◌∷◌, ◌++◌, map, Text, arith, codes,
  length,
}
use miau.Prelude.Int.{pos}
use miau.Irc.{Flood, FloodCfg, message, Event, write, tick, run}
use miau.Irc.Order.{backlog, written, backlog-run}
use miau.Irc.Drain.{Spaced, run_empties}
use miau.Irc.Rate.{potential, ticks, run-potential}
use miau.Irc.Track.{Sockets}
use miau.Irc.Read.{Connection, byte, received, irc_read}
use miau.Irc.Read.Buffers.{Holds, c_string, strip_cr}
use miau.Irc.Read.Lines.{irc_read-line}

abbrev cfg : FloodCfg
cfg = record { floodtimer = 2; burstsize = 2 }

abbrev idle : Flood
idle = record { msgtimer = pos 2; msg_queue = []; sent = []; floodtime = 0 }

abbrev history : List Event
history =
    write (codes "NICK a")
    ∷ write (codes "MODE a +i")
    ∷ write (codes "JOIN #b")
    ∷ tick 1
    ∷ tick 3
    ∷ []

history_sent : map (λ (m : Text). length m) (run cfg idle history).sent ≡ 8 ∷ 11 ∷ []
unfolding run
history_sent = refl

backlog-run_example : backlog (run cfg idle history) ≡ backlog idle ++ written history
backlog-run_example = backlog-run cfg idle history (inl refl) (tt)

run-potential_example :
    potential (run cfg idle history) ≤ potential idle + ticks history * cfg.burstsize
run-potential_example = run-potential cfg idle history

abbrev socks : Sockets
socks = record { track_socks = 4 ∷ 0 ∷ 7 ∷ []; highest_socket = 7 }

zeros : ℕ → Text
zeros zero = []
zeros (suc n) = 0 ∷ zeros n

abbrev fresh : Connection
fresh = record { timer = 3; buffer = zeros 1024; offset = 0 }

fresh-Holds : Holds fresh []
unfolding zeros
fresh-Holds = record { rest = zeros 1024; buffer = refl; offset = refl; size = refl }

irc_read-line_example :
    (c' : Connection) × (irc_read fresh (map byte (codes "PING" ++ 13 ∷ []) ++ byte 10 ∷ [])
      ≡ (received, c', []))
    × (c_string c'.buffer ≡ strip_cr ([] ++ (codes "PING" ++ 13 ∷ [])))
    × (c'.offset ≡ 0)
irc_read-line_example =
    irc_read-line fresh [] (codes "PING" ++ 13 ∷ []) [] fresh-Holds (omega arith) (omega arith)
      (omega arith)

abbrev behind : Flood
behind = record {
  msgtimer = pos 1;
  msg_queue = message (codes "JOIN #b") ∷ [];
  sent = [];
  floodtime = 0;
}

run_empties_example : (run cfg behind (map tick (2 ∷ 4 ∷ []))).msg_queue ≡ []
unfolding Spaced
run_empties_example =
    run_empties cfg behind (2 ∷ 4 ∷ []) (omega arith) (omega arith) (inr refl)
      (omega arith, (omega arith, tt)) (omega arith)

abbrev narrow : FloodCfg
narrow = record { floodtimer = 2; burstsize = 1 }
