-- ===== src/Client/Quiet.antt =====
-- Dispatching a line of a client sends nothing to the server by itself.
use mathlib.Core.Path.{subst}
use miau.Prelude.{
  ℕ, ◌≡◌, inl, inr, refl, sym, ap, ◌∙◌, Bool, true, false, not, ◌&&◌, ◌||◌, Option, none, some,
  List, [], ◌∷◌, ◌++◌, Text, codes, Option-cases, ◌==◌, if◌then◌else◌, append-nil, ==_refl, length,
  drop, Bool-cases, arith,
}
use miau.Prelude.Strings.{strchr}
use miau.Channels.{channel_find, channel_is_name, list_active, ChannelType}
use miau.Client.{
  Effect, written, server, client, clients, others, quick_log, dropped, commanded, logged,
  ClientCfg, Session, did,
}
use miau.Client.Message.{Passed, log_channel, cmd_privmsg_ctcp, cmd_privmsg, cmd_away}
use miau.Client.Read.{
  pong, after_ctcp, is_ctcp, left_text, Words, is_command, identifies, dispatch, message_line,
  par0_of,
}

-- What went to the server, and what was handed to the rest of miau: commands to it, and the end of the
-- connection of this client.
abbrev pub is_sent : Effect → Bool
is_sent (server text) = true
is_sent (dropped reason) = true
is_sent (commanded par0 par1) = true
is_sent (client text) = false
is_sent (clients text) = false
is_sent (others text) = false
is_sent (quick_log text) = false
is_sent (logged name text) = false

abbrev pub sent_of : List Effect → List Effect
sent_of [] = []
sent_of (e ∷ done) = let rest = sent_of done in if is_sent e then e ∷ rest else rest

pub sent_of-append : (xs ys : List Effect) → sent_of (xs ++ ys) ≡ sent_of xs ++ sent_of ys
sent_of-append [] ys = refl
sent_of-append (e ∷ xs) ys = elim (Bool-cases (is_sent e)) [
  | inl h ↦ rw h (ap (◌∷◌ e) (sent_of-append xs ys))
  | inr h ↦ rw h (sent_of-append xs ys)
]

-- The lines that miau keeps for itself.
unfoldable pub munched : ClientCfg → Words → Bool
munched cfg w =
    not (is_command w (codes "PRIVMSG"))
    && (is_command w (codes "PONG")
        || (is_command w (codes "PING")
            || (not (is_command w (codes "AWAY"))
                && ((cfg.no_identify_capab == 1 && is_command w (codes "CAPAB"))
                    && identifies (par0_of w)))))

abbrev pub pass_of : Bool → ℕ
pass_of true = 0
pass_of false = 1

-- Nothing went to the server, and the connection is as before.
pub record Quiet (st : Session) (pass : ℕ) (r : Passed) : Type 0 where
  pub same_pass : r.0 ≡ pass
  pub same_sent : sent_of r.1.done ≡ sent_of st.done
  pub same_connected : r.1.connected ≡ st.connected

Quiet-if :
    (st : Session) (pass : ℕ) (b : Bool) (x y : Passed)
    → Quiet st pass x
    → Quiet st pass y
    → Quiet st pass (if b then x else y)
Quiet-if st pass true x y hx hy = hx
Quiet-if st pass false x y hx hy = hy

pub quiet : (st : Session) (pass : ℕ) → Quiet st pass (pass, st)
quiet st pass = record { same_pass = refl; same_sent = refl; same_connected = refl }

-- An effect that is not for the server.
pub Quiet-did :
    (st : Session) (pass : ℕ) (e : Effect)
    → is_sent (written e) ≡ false
    → Quiet st pass (pass, did e st)
Quiet-did st pass e h = record {
  same_pass = refl;
  same_sent = sent_of-append st.done (written e ∷ []) ∙ rw h (append-nil (sent_of st.done));
  same_connected = refl;
}

-- A change of what is known of being away.
Quiet-away :
    (st : Session) (msg : Option Text) (away custom : Bool)
    → Quiet st 1 (1, record st { awaymsg = msg; away = away; custom = custom })
Quiet-away st msg away custom = record { same_pass = refl; same_sent = refl; same_connected = refl }

away-Quiet :
    (cfg : ClientCfg) (line : Text) (par0 : Option Text) (st : Session)
    → Quiet st 1 (cmd_away cfg line par0 st)
unfolding cmd_away
away-Quiet cfg line none st = Quiet-away st none false false
away-Quiet cfg line (some par0) st = elim (Option-cases (strchr line b' ')) [
  | inl e ↦ rw (e, cmd_away) (quiet st 1)
  | inr (space, e) ↦
      rw (e, cmd_away)
        (Quiet-if st 1 (cfg.emptyaway || not (length (drop 2 space) == 0)) _ _
          (Quiet-away st (some (drop 2 space)) true true) (Quiet-away st none false false))
]

Quiet-choice :
    (st : Session) (b : Bool) (x y : Session)
    → Quiet st 1 (1, x)
    → Quiet st 1 (1, y)
    → Quiet st 1 (1, if b then x else y)
Quiet-choice st true x y hx hy = hx
Quiet-choice st false x y hx hy = hy

log_channel-Quiet :
    (cfg : ClientCfg) (e : Effect) (st : Session) (o : Option ChannelType)
    → is_sent (written e) ≡ false
    → Quiet st 1 (log_channel cfg (did e st) st o)
unfolding log_channel
log_channel-Quiet cfg e st none h = quiet st 1
log_channel-Quiet cfg e st (some chan) h =
    Quiet-choice st (cfg.has_log chan) _ st (Quiet-did st 1 e h) (quiet st 1)

privmsg-Quiet :
    (cfg : ClientCfg) (par0 par1 : Text) (st : Session) → Quiet st 1 (cmd_privmsg cfg par0 par1 st)
unfolding cmd_privmsg
privmsg-Quiet cfg par0 par1 st =
    let noted = Quiet-did st 1 (logged par0 (drop 1 par1)) refl in
    Quiet-if st 1 (channel_is_name (some par0) == 0) _ _
      (Quiet-choice st (cfg.privlog == 0) st _ (quiet st 1) noted)
      (log_channel-Quiet cfg (logged par0 (drop 1 par1)) st
        (channel_find st.channels par0 list_active) refl)

ctcp_off :
    (cfg : ClientCfg) (par0 par1 : Text) (st : Session)
    → cfg.dccbounce ≡ 0
    → cmd_privmsg_ctcp cfg par0 par1 st ≡ (1, st)
unfolding cmd_privmsg_ctcp
ctcp_off cfg par0 par1 st off = rw (==_refl cfg.dccbounce 0 off) refl

ctcp-Quiet :
    (cfg : ClientCfg) (par0 text : Text) (st : Session)
    → cfg.dccbounce ≡ 0
    → Quiet st 1 (after_ctcp cfg par0 (left_text cfg text) (cmd_privmsg_ctcp cfg par0 text st))
unfolding after_ctcp
ctcp-Quiet cfg par0 text st off =
    subst (λ r. Quiet st 1 (after_ctcp cfg par0 (left_text cfg text) r))
      (sym (ctcp_off cfg par0 text st off)) (privmsg-Quiet cfg par0 (left_text cfg text) st)

message-Quiet :
    (cfg : ClientCfg) (params : Option (Text × Option Text)) (st : Session)
    → cfg.dccbounce ≡ 0
    → Quiet st 1 (message_line cfg params st)
unfolding message_line
message-Quiet cfg none st off = quiet st 1
message-Quiet cfg (some (par0, none)) st off = quiet st 1
message-Quiet cfg (some (par0, some text)) st off =
    Quiet-if st 1 (is_ctcp text) _ _ (ctcp-Quiet cfg par0 text st off)
      (privmsg-Quiet cfg par0 text st)

-- A branch of the dispatch, where the test is part of what is munched.
branch :
    (st : Session) (b m : Bool) (x y : Passed)
    → Quiet st 0 x
    → Quiet st (pass_of m) y
    → Quiet st (pass_of (b || m)) (if b then x else y)
branch st true m x y hx hy = hx
branch st false m x y hx hy = hy

plain_branch :
    (st : Session) (b m : Bool) (x y : Passed)
    → Quiet st 1 x
    → Quiet st (pass_of m) y
    → Quiet st (pass_of (not b && m)) (if b then x else y)
plain_branch st true m x y hx hy = hx
plain_branch st false m x y hx hy = hy

capab_branch :
    (st : Session) (b i : Bool) (x y : Passed)
    → Quiet st 0 x
    → Quiet st 1 y
    → Quiet st (pass_of (b && i)) (if b then (if i then x else (1, st)) else y)
capab_branch st true true x y hx hy = hx
capab_branch st true false x y hx hy = quiet st 1
capab_branch st false i x y hx hy = hy

no_branch :
    (st : Session) (b : Bool) (pass : ℕ) (x y : Passed)
    → b ≡ false
    → Quiet st pass y
    → Quiet st pass (if b then x else y)
no_branch st true pass x y h hy = absurd (ground arith)
no_branch st false pass x y h hy = hy

pub dispatch-Quiet :
    (cfg : ClientCfg) (w : Words) (line : Text) (st : Session)
    → cfg.dccbounce ≡ 0
    → st.connected ≡ 2
    → is_command w (codes "MIAU") ≡ false
    → is_command w (codes "QUIT") ≡ false
    → Quiet st (pass_of (munched cfg w)) (dispatch cfg w line st)
unfolding dispatch munched
dispatch-Quiet cfg w line st off conn no_miau no_quit =
    plain_branch st (is_command w (codes "PRIVMSG")) _ _ _ (message-Quiet cfg w.params st off) (
      branch st (is_command w (codes "PONG")) _ _ _ (quiet st 0) (
        branch st (is_command w (codes "PING")) _ _ _ (Quiet-did st 0 (client (pong cfg w)) refl) (
          no_branch st (is_command w (codes "MIAU")) _ _ _ no_miau (
            no_branch st (is_command w (codes "QUIT")) _ _ _ no_quit (
              plain_branch st (is_command w (codes "AWAY")) _ _ _
                (away-Quiet cfg line (par0_of w) st)
                (capab_branch st (cfg.no_identify_capab == 1 && is_command w (codes "CAPAB"))
                  (identifies (par0_of w)) _ _
                  (Quiet-did st 0
                    (client
                      (codes ":" ++ cfg.realname ++ codes " 290 " ++ cfg.nickname ++ codes " :"))
                    refl)
                  (rw (==_refl st.connected 2 conn) (quiet st 1))))))))
