-- ===== src/Server/TalkExamples.antt =====
-- Runs of messages from the server, and the theorems at concrete messages.
use miau.Prelude.{◌≡◌, ◌+◌, refl, true, none, some, [], ◌∷◌, ◌++◌, codes, arith}
use miau.Common.{same_nocase}
use miau.Channels.{new_channel}
use miau.Server.Talk.{
  mincommandvalue, cmd_privmsg_number, chanlogged, TalkCfg, Talk, did, answer, old_text,
  forward_line, forward,
}
use miau.Server.Privmsg.{parse_privmsg}
use miau.Server.Talked.{IsFilled, forward-whole, bouncing, parse_privmsg-bouncing}

abbrev cfg : TalkCfg
cfg = record {
  ident = record { idhostname = codes "u@h"; goodhostname = 2 };
  ignorelist = [];
  connected = 1;
  nickname = codes "me";
  dccbounce = 1;
  dcc_initiate = λ text. some text;
  privlog = 0;
  cmdpasswd = none;
  crypt = λ word salt. word;
  remote_cmd = λ command params nick. 0;
  forwards = true;
  channels = record {
    active_channels = new_channel 1 (codes "#a") none ∷ [];
    passive_channels = [];
    old_channels = [];
    next = 2;
  };
  has_log = λ c. true;
  log_prepare_entry = λ nick text. none;
  version_reply = codes "v";
  clientinfo_reply = codes "c";
}

abbrev quiet : Talk
quiet = record {
  ignores = [];
  allowreply = 1;
  forwardmsg = none;
  forwardmsgsize = 0;
  reply_timer = 9;
  forward_timer = 9;
  pass = 1;
  done = [];
}

-- A request of PING has no answer: it is one with no more than its name, or it is another word.
ping_unanswered : answer cfg (codes "bo") (1 ∷ codes "PING") quiet ≡ quiet
unfolding answer
ping_unanswered = refl

ping_time_unanswered : answer cfg (codes "bo") (1 ∷ (codes "PING 123" ++ 1 ∷ [])) quiet ≡ quiet
unfolding answer
ping_time_unanswered = refl

wallop_logged :
    parse_privmsg cfg
      (codes "@#a")
      (some (codes ":hi"))
      (codes "bo")
      (codes "b@h")
      (mincommandvalue + cmd_privmsg_number)
      quiet
    ≡ some (0, did (chanlogged 1 true (codes "bo") (codes "hi")) quiet)
unfolding parse_privmsg same_nocase miau.Tools.to_lower
wallop_logged = refl

forward-whole_example :
    ((forward (codes "bo!b@h") (codes "hi") quiet).forwardmsg
      ≡ some (old_text none ++ forward_line (codes "bo!b@h") (codes "hi")))
    × ((forward (codes "bo!b@h") (codes "hi") quiet).forwardmsgsize ≡ 13)
unfolding IsFilled
forward-whole_example = forward-whole (codes "bo!b@h") (codes "hi") quiet (λ text e. ground arith)

parse_privmsg-bouncing_example :
    parse_privmsg
      (bouncing 0 (λ text. none) cfg)
      (codes "me")
      (some (codes ":" ++ 1 ∷ (codes "DCC" ++ 1 ∷ [])))
      (codes "bo")
      (codes "b@h")
      (mincommandvalue + cmd_privmsg_number)
      quiet
    ≡ parse_privmsg cfg
        (codes "me")
        (some (codes ":" ++ 1 ∷ (codes "DCC" ++ 1 ∷ [])))
        (codes "bo")
        (codes "b@h")
        (mincommandvalue + cmd_privmsg_number)
        quiet
parse_privmsg-bouncing_example =
    parse_privmsg-bouncing 0 (λ text. none) cfg (codes "me")
      (some (codes ":" ++ 1 ∷ (codes "DCC" ++ 1 ∷ []))) (codes "bo") (codes "b@h")
      cmd_privmsg_number quiet
