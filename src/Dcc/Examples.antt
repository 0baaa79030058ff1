-- ===== src/Dcc/Examples.antt =====
-- Runs of the connections between two clients, and the theorems at such connections.
use miau.Prelude.{ℕ, ◌≡◌, refl, true, false, none, some, List, [], ◌∷◌, All, Text, codes, arith}
use miau.Tools.{upcase}
use miau.Table.Compact.{live}
use miau.Dcc.{Bounce, Dccs, Pipe, bytes, is_late, dcc_timer, dcc_bouncedata}
use miau.Dcc.Request.{Request, other_port, resumed, accepted, dcc_resume, read_request}
use miau.Dcc.Open.{System, dcc_initiate}
use miau.Dcc.Check.{Net}
use miau.Dcc.Run.{DccEvent, asked, ready, second, dcc_run}
use miau.Dcc.Checked.{AllPaired}
use miau.Dcc.Kept.{dcc_run-AllPaired}
use miau.Dcc.Timeout.{up, dcc_timer-up}
use miau.Dcc.Failed.{dcc_initiate-IsUndone}
use miau.Dcc.Pair.{flow, AreApart, destports, answer_to, dcc_bouncedata-flow, dcc_resume-answer}

abbrev system : System
system = record {
  knows_host = true;
  opened = some 7;
  sock_bind = λ p. true;
  sock_listen = true;
  random = 66000 ∷ [];
  now = 100;
}

abbrev busy : System
busy = record system { sock_listen = false }

abbrev net : Net
net = record {
  readable = λ s. true;
  writeable = λ s. true;
  sockopt = λ s. false;
  sock_accept = λ s. some 9;
  sock_open = λ s. some 8;
  connects = λ s. true;
  waiting = λ s. [];
  room = λ s. bytes 5;
  over = λ s. false;
  took = λ n. n;
}

abbrev request : Text
request = 1 ∷ codes "DCC SEND a.txt 16909060 4000 12"

abbrev events : List DccEvent
events = asked system request ∷ ready net ∷ ready net ∷ second 300 ∷ []

dcc_run-AllPaired_example : AllPaired (dcc_run events [])
dcc_run-AllPaired_example = dcc_run-AllPaired events

dcc_timer-up_example :
    (up (live (dcc_timer 400 (dcc_run events []))) ≡ up (live (dcc_run events [])))
    × All (λ b. is_late 400 b ≡ false) (live (dcc_timer 400 (dcc_run events [])))
dcc_timer-up_example = dcc_timer-up events 400

failed : (dcc_initiate busy request []).0 ≡ none
unfolding dcc_initiate miau.Tools.to_upper
failed = refl

dcc_initiate-IsUndone_example : live (dcc_initiate busy request []).1 ≡ live []
dcc_initiate-IsUndone_example = dcc_initiate-IsUndone busy request [] failed

abbrev pipe : Pipe
pipe = record { waiting = 1 ∷ 2 ∷ 3 ∷ []; passed = [] }

dcc_bouncedata-flow_example : flow (dcc_bouncedata (λ n. n) (bytes 2) false pipe true).1 ≡ flow pipe
dcc_bouncedata-flow_example = dcc_bouncedata-flow (λ n. n) (bytes 2) false pipe true (λ n le. refl)

run_up :
    dcc_run events []
    ≡ some (record {
      src = 9;
      dest = 8;
      src_wa = false;
      dest_wa = false;
      connected = true;
      created = 100;
      srcport = 1488;
      destport = 4000;
    })
      ∷ []
unfolding dcc_run miau.Tools.to_upper miau.Table.table_add_item
run_up = refl

abbrev pair : ℕ → ℕ → Bounce
pair srcport destport = record {
  src = 9;
  dest = 8;
  src_wa = true;
  dest_wa = true;
  connected = true;
  created = 100;
  srcport = srcport;
  destport = destport;
}

abbrev pairs : Dccs
pairs = some (pair 2000 4000) ∷ none ∷ some (pair 2001 5000) ∷ []

abbrev resume : Request
resume = record { type = codes "RESUME"; arg1 = codes "a.txt"; args = 2001 ∷ 512 ∷ []; argc = 4 }

read_run : read_request (codes "DCC resume a.txt 2001 512") ≡ some resume
unfolding read_request miau.Tools.to_upper
read_run = refl

pairs_apart : AreApart (destports pairs)
unfolding AreApart live
pairs_apart = ((λ e. absurd (omega (arith, e)), tt), (tt, tt))

found : other_port true 2001 pairs ≡ some 5000
unfolding other_port
found = refl

dcc_resume-answer_example :
    (dcc_resume resume pairs ≡ some (resumed (codes "a.txt") 5000 512))
    × (dcc_resume (answer_to resume 5000) pairs ≡ some (accepted (codes "a.txt") 2001 512))
dcc_resume-answer_example = dcc_resume-answer resume pairs 5000 refl pairs_apart found
