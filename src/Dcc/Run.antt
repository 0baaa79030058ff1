-- ===== src/Dcc/Run.antt =====
-- src/miau.c, src/server_commands.c, src/client.c: what the main loop asks of src/dcc.c.
use miau.Prelude.{ℕ, List, [], ◌∷◌, Text}
use miau.Dcc.{Dccs, dcc_timer}
use miau.Dcc.Open.{System, dcc_initiate}
use miau.Dcc.Check.{Net, dcc_socketcheck}

pub data DccEvent : Type 0 where
  asked : System → Text → DccEvent
  ready : Net → DccEvent
  second : ℕ → DccEvent

unfoldable pub dcc_step : DccEvent → Dccs → Dccs
unfolding dcc_initiate dcc_socketcheck dcc_timer
dcc_step (asked system param) dccs = (dcc_initiate system param dccs).1
dcc_step (ready net) dccs = dcc_socketcheck net dccs
dcc_step (second now) dccs = dcc_timer now dccs

unfoldable pub dcc_run : List DccEvent → Dccs → Dccs
unfolding dcc_step
dcc_run [] dccs = dccs
dcc_run (e ∷ es) dccs = dcc_run es (dcc_step e dccs)
