-- ===== src/Client/Passing.antt =====
-- Which lines of a client reach the server.
use miau.Prelude.{
  ◌≡◌, inl, inr, refl, sym, ap, ◌∙◌, Bool, true, false, Option, none, some, List, [], ◌∷◌, ◌++◌,
  Text, text_eq→eq, codes, Bool-cases, ◌==◌, if◌then◌else◌, append-nil, ==_refl,
}
use miau.Irc.{cut}
use miau.Client.{Effect, server, others, dropped, commanded, ClientCfg, Session, did}
use miau.Client.Message.{Passed, pass_cmd, pass_message, note, is_message, echo}
use miau.Client.Read.{
  text_left, Words, is_command, offline, dispatch, passed_on, par0_of, par1_of, client_read,
  split_line, quit_reason,
}
use miau.Client.Quiet.{sent_of, sent_of-append, munched, pass_of, Quiet, dispatch-Quiet}

note_sent :
    (cfg : ClientCfg) (par0 : Option Text) (buf : Text) (st : Session)
    → sent_of (note cfg par0 buf st).done ≡ sent_of st.done
unfolding note
note_sent cfg none buf st = refl
note_sent cfg (some par0) buf st = elim (Bool-cases (cfg.flushqlog == 0)) [
  | inl e ↦ rw e (sent_of-append st.done _ ∙ append-nil (sent_of st.done))
  | inr e ↦ rw e refl
]

abbrev pub Sends : Option Session → List Effect → Type 0
Sends o effects = (after : Session) × (o ≡ some after) × (sent_of after.done ≡ effects)

pass_message-Sends :
    (cfg : ClientCfg) (cmd : Text) (par0 par1 : Option Text) (buf : Text) (st : Session)
    → cfg.privmsg_fmt ≡ none
    → Sends (pass_message cfg cmd par0 par1 buf st) (sent_of st.done)
unfolding pass_message echo
pass_message-Sends cfg cmd par0 par1 buf st plain =
    let whole = codes ":" ++ cfg.nickname ++ codes "!" ++ cfg.idhostname ++ codes " " ++ buf in
    (
      note cfg par0 buf (did (others whole) st),
      rw (plain, pass_message) refl,
      note_sent cfg par0 buf (did (others whole) st)
          ∙ sent_of-append st.done (others (cut whole) ∷ [])
          ∙ append-nil (sent_of st.done),
    )

pass_cmd-Sends :
    (cfg : ClientCfg) (cmd : Text) (par0 par1 : Option Text) (buf : Text) (st : Session)
    → cfg.privmsg_fmt ≡ none
    → st.connected ≡ 2
    → Sends (pass_cmd cfg cmd par0 par1 buf st) (sent_of st.done ++ server (cut buf) ∷ [])
unfolding pass_cmd
pass_cmd-Sends cfg cmd par0 par1 buf st plain conn =
    let sent = did (server buf) st in
    let one = sent_of-append st.done (server (cut buf) ∷ []) in
    elim (Bool-cases (is_message cmd)) [
      | inl m ↦
          let (after, e, same) = pass_message-Sends cfg cmd par0 par1 buf sent plain in
          (after, rw (==_refl st.connected 2 conn, m, e, pass_cmd) refl, same ∙ one)
      | inr m ↦ (sent, rw (==_refl st.connected 2 conn, m, pass_cmd) refl, one)
    ]

-- What is sent of a line once it was dispatched.
passed-Sends :
    (cfg : ClientCfg) (w : Words) (line : Text) (st : Session) (b : Bool) (r : Passed)
    → cfg.privmsg_fmt ≡ none
    → st.connected ≡ 2
    → Quiet st (pass_of b) r
    → Sends (passed_on cfg w line r) (sent_of st.done ++ (if b then [] else server (cut line) ∷ []))
passed-Sends cfg w line st true (pass, st') plain conn q =
    (st', rw q.same_pass refl, q.same_sent ∙ sym (append-nil (sent_of st.done)))
passed-Sends cfg w line st false (pass, st') plain conn q =
    let (after, e, same) =
      pass_cmd-Sends cfg w.command (par0_of w)
        (text_left cfg (is_command w (codes "PRIVMSG")) (par1_of w)) line st' plain
        (q.same_connected ∙ conn) in
    (after, rw q.same_pass e, same ∙ ap (λ l. l ++ server (cut line) ∷ []) q.same_sent)

-- Commands that are handed on.
by_miau :
    (cfg : ClientCfg) (w : Words) (line : Text) (st : Session)
    → is_command w (codes "MIAU") ≡ true
    → dispatch cfg w line st ≡ (0, did (commanded (par0_of w) (par1_of w)) st)
unfolding dispatch
by_miau cfg w line st h = rw (text_eq→eq w.command (codes "MIAU") h, dispatch, is_command) refl

by_quit :
    (cfg : ClientCfg) (w : Words) (line : Text) (st : Session)
    → is_command w (codes "QUIT") ≡ true
    → dispatch cfg w line st ≡ (0, did (dropped (quit_reason w line)) st)
unfolding dispatch
by_quit cfg w line st h = rw (text_eq→eq w.command (codes "QUIT") h, dispatch, is_command) refl

-- What a line is to lead to.
unfoldable pub handed_on : ClientCfg → Words → Text → List Effect
handed_on cfg w line =
    if is_command w (codes "MIAU")
    then commanded (par0_of w) (par1_of w) ∷ []
    else if is_command w (codes "QUIT")
    then dropped (quit_reason w line) ∷ []
    else if munched cfg w
    then []
    else server (cut line) ∷ []

handed-Sends :
    (cfg : ClientCfg) (w : Words) (line : Text) (st : Session)
    → cfg.dccbounce ≡ 0
    → cfg.privmsg_fmt ≡ none
    → st.connected ≡ 2
    → Sends
        (passed_on cfg w line (dispatch cfg w line st))
        (sent_of st.done ++ handed_on cfg w line)
unfolding handed_on
handed-Sends cfg w line st off plain conn = elim (Bool-cases (is_command w (codes "MIAU"))) [
  | inl miau ↦ (
    did (commanded (par0_of w) (par1_of w)) st,
    rw (by_miau cfg w line st miau) refl,
    rw (miau, handed_on) (sent_of-append st.done (commanded (par0_of w) (par1_of w) ∷ [])),
  )
  | inr no_miau ↦ elim (Bool-cases (is_command w (codes "QUIT"))) [
    | inl quit ↦ (
      did (dropped (quit_reason w line)) st,
      rw (by_quit cfg w line st quit) refl,
      rw (no_miau, quit, handed_on) (sent_of-append st.done (dropped (quit_reason w line) ∷ [])),
    )
    | inr no_quit ↦
        rw (no_miau, no_quit, handed_on)
          (passed-Sends cfg w line st (munched cfg w) (dispatch cfg w line st) plain conn
            (dispatch-Quiet cfg w line st off conn no_miau no_quit))
  ]
]

-- On a connected server, without the DCC bouncer and without a format for messages: a line with a
-- command is no fault. MIAU is handed on to be carried out, and QUIT to end the connection of the client;
-- nothing is sent by a PONG, a PING or the request to mark identified users that the configuration keeps
-- back; any other line goes to the server once, its first 517 characters as they were written.
pub client_read-munched :
    (cfg : ClientCfg) (line : Text) (st : Session) (w : Words)
    → cfg.dccbounce ≡ 0
    → cfg.privmsg_fmt ≡ none
    → st.connected ≡ 2
    → split_line line ≡ some w
    → Sends (client_read cfg line st) (sent_of st.done ++ handed_on cfg w line)
unfolding client_read offline
client_read-munched cfg line st w off plain conn e =
    let (after, f, same) = handed-Sends cfg w line st off plain conn in
    (after, rw (e, ==_refl st.connected 2 conn, client_read, offline) f, same)
