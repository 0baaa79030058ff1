-- ===== src/Server/Talk.antt =====
-- src/server.c: messages from the server, to miau's nick and to channels. `done` lists what they lead to
-- in the world outside of the state. `command` is the number of the command, 1000 more than in the table
-- of commands. What is behind the end of a text is not modelled: a pointer there is an empty text.
use miau.Prelude.{
  ℕ, zero, suc, ◌+◌, ◌-◌, Bool, true, false, not, ◌&&◌, ◌||◌, Option, none, some, List, [], ◌∷◌,
  ◌++◌, Text, codes, ltb, text_eq, ◌==◌, if◌then◌else◌, length, take, drop, head0,
}
use miau.Prelude.Strings.{◌>>=◌, tokens_by, token_end}
use miau.Common.{same_nocase}
use miau.Tools.{upcase, pos}
use miau.Perm.{PermList, Ident}
use miau.Ignore.{Ignores, is_ignore, ignore_add}
use miau.Irc.{irc_msglen}
use miau.Channels.{ChannelType, Channels}

abbrev pub cmd_privmsg_number : ℕ
cmd_privmsg_number = 512

abbrev pub mincommandvalue : ℕ
mincommandvalue = 1000

-- A line to the clients, a NOTICE to a nick, a report of a CTCP request that was answered or not, a line
-- for the log of private messages, and one for the log of a channel, by its address, of a PRIVMSG or not.
pub data Talked : Type 0 where
  clients : Text → Talked
  notice : Text → Text → Talked
  ctcp_report ctcp_no_reply : Text → Text → Talked
  privlogged : Text → ℕ → Text → Talked
  chanlogged : ℕ → Bool → Text → Text → Talked
  prepared : ℕ → Text → Talked

pub record TalkCfg : Type 0 where
  pub ident : Ident
  pub ignorelist : PermList
  pub connected : ℕ
  pub nickname : Text
  pub dccbounce : ℕ
  pub dcc_initiate : Text → Option Text
  pub privlog : ℕ
  pub cmdpasswd : Option Text
  pub crypt : Text → Text → Text
  pub remote_cmd : Text → Text → Text → ℕ
  pub forwards : Bool
  pub channels : Channels
  pub has_log : ChannelType → Bool
  pub log_prepare_entry : Text → Text → Option Text
  pub version_reply : Text
  pub clientinfo_reply : Text

-- `forwardmsg` is the text that waits to be forwarded, `forwardmsgsize` the size of its memory.
pub record Talk : Type 0 where
  pub ignores : Ignores
  pub allowreply : ℕ
  pub forwardmsg : Option Text
  pub forwardmsgsize : ℕ
  pub reply_timer : ℕ
  pub forward_timer : ℕ
  pub pass : ℕ
  pub done : List Talked

abbrev pub ignore_ctcp : ℕ
ignore_ctcp = 1

abbrev pub did : Talked → Talk → Talk
did e st = record st { done = st.done ++ e ∷ [] }

-- A request to open a connection, which miau may take over for its clients.
unfoldable pub bounce : TalkCfg → Text → Text → Text → ℕ → Talk → Talk
bounce cfg origin param1 param2 command st =
    if not (cfg.connected == 0)
      && command == cmd_privmsg_number
      && not (cfg.dccbounce == 0)
      && same_nocase (drop 2 param2) (codes "DCC" ++ 1 ∷ [])
    then elim (cfg.dcc_initiate (take irc_msglen (drop 1 param2))) [
      | none ↦ st
      | some dcct ↦
          record (did
            (clients (codes ":" ++ origin ++ codes " PRIVMSG " ++ param1 ++ codes " :" ++ dcct))
            st) { pass = 0 }
    ]
    else st

unfoldable pub answer : TalkCfg → Text → Text → Talk → Talk
answer cfg nick request st =
    if text_eq (drop 1 request) (codes "VERSION" ++ 1 ∷ [])
    then did (notice nick cfg.version_reply) st
    else if text_eq (drop 1 request) (codes "PING")
    then (if ltb 6 (length request) then did (notice nick request) st else st)
    else if text_eq (drop 1 request) (codes "CLIENTINFO" ++ 1 ∷ [])
    then did (notice nick cfg.clientinfo_reply) st
    else st

unfoldable pub reply_ctcp : TalkCfg → Text → Text → Text → Text → Talk → Talk
unfolding is_ignore ignore_add answer
reply_ctcp cfg origin nick hostname request st =
    let answered = answer cfg nick request (did (ctcp_report request origin) st) in
    let settled = record answered {
      ignores = ignore_add answered.ignores (some hostname) 6 ignore_ctcp;
      allowreply = 0;
      reply_timer = 0;
    } in
    if not (is_ignore st.ignores hostname ignore_ctcp) && cfg.connected == 0 && st.allowreply == 1
    then settled
    else if is_ignore st.ignores hostname ignore_ctcp || st.allowreply == 0
    then did (ctcp_no_reply request origin) st
    else st

unfoldable pub parse_msg_me_ctcp : TalkCfg → Text → Text → Text → Text → Text → ℕ → Talk → Talk
unfolding bounce reply_ctcp
parse_msg_me_ctcp cfg origin nick hostname param1 param2 command st =
    reply_ctcp cfg origin nick hostname (drop 1 param2) (bounce cfg origin param1 param2 command st)

abbrev pub odd : ℕ → Bool
odd zero = false
odd (suc zero) = true
odd (suc (suc n)) = odd n

-- The bits 1 and 2 of `privlog`.
abbrev pub second_bit : ℕ → Bool
second_bit zero = false
second_bit (suc zero) = false
second_bit (suc (suc zero)) = true
second_bit (suc (suc (suc zero))) = true
second_bit (suc (suc (suc (suc n)))) = second_bit n

unfoldable pub privlog_in : TalkCfg → Text → ℕ → Text → Talk → Talk
privlog_in cfg nick command text st =
    if cfg.connected == 0 && odd cfg.privlog || not (cfg.connected == 0) && second_bit cfg.privlog
    then did (privlogged nick command text) st
    else st

unfoldable pub pass_ok : TalkCfg → Text → Text → Bool
pass_ok cfg cmdpasswd word =
    if length cmdpasswd == 13
    then text_eq (cfg.crypt word cmdpasswd) cmdpasswd
    else text_eq word cmdpasswd

-- The command and its parameters in a text that begins with the password.
abbrev pub remote_words : Text → Option (Text × Text)
remote_words lparam =
    let rest = drop (suc (token_end b' ' lparam)) lparam in
    elim (tokens_by b' ' [] rest) as (λ _. Option (Text × Text)) [
      | [] ↦ none
      | command ∷ words ↦ some (command, drop (suc (token_end b' ' rest)) rest)
    ]

-- What a command to miau from the server says to `pass`, where the text is one.
unfoldable pub remote : TalkCfg → Text → Text → Option ℕ
unfolding pos pass_ok upcase
remote cfg nick param2 = cfg.cmdpasswd >>= (λ cmdpasswd.
    if head0 param2 == 0 || not (head0 (drop 1 param2) == b':')
    then none
    else pos (drop 2 param2) b' ' >>= (λ passlen.
      if pass_ok cfg cmdpasswd (take passlen (drop 2 param2))
      then remote_words (drop 2 param2)
        >>= (λ (w : Text × Text). some (cfg.remote_cmd (upcase w.0) w.1 nick))
      else none))

abbrev pub old_text : Option Text → Text
old_text none = []
old_text (some text) = text

abbrev pub size_of : Option Text → ℕ → ℕ
size_of none size = 1
size_of (some text) size = size

abbrev pub forward_line : Text → Text → Text
forward_line origin text = b'(' ∷ (origin ++ b')' ∷ b' ' ∷ (text ++ 10 ∷ []))

-- The text grows by a line, of which `snprintf` writes what there is room for.
unfoldable pub forward : Text → Text → Talk → Talk
forward origin text st =
    let size = size_of st.forwardmsg st.forwardmsgsize in
    let at = size - 1 in
    let grown = size + (length origin + length text + 4) in
    record st {
      forward_timer = 0;
      forwardmsg =
          some
            (take at (old_text st.forwardmsg) ++ take (grown - at - 1) (forward_line origin text));
      forwardmsgsize = grown;
    }
