-- ===== src/Client/Read.antt =====
-- src/client.c: a line of a client, from its words to what is passed on to the server.
use miau.Prelude.{
  suc, Bool, false, not, ◌&&◌, Option, none, some, [], ◌∷◌, ◌++◌, Text, codes, ltb, ◌==◌,
  if◌then◌else◌, length, take, drop, head0, get_or,
}
use miau.Prelude.Strings.{run_of, token_end}
use miau.Common.{xstrcmp, xstrncmp}
use miau.Tools.{upcase, lowcase}
use miau.Client.{client, dropped, commanded, ClientCfg, Session, did, cmd_part, cmd_join}
use miau.Client.Message.{Passed, cmd_away, cmd_privmsg_ctcp, cmd_privmsg, pass_cmd}

-- The words of a line: the command in upper case, the first parameter without a colon at its front, and
-- the rest of the line.
pub record Words : Type 0 where
  pub command : Text
  pub params : Option (Text × Option Text)

abbrev pub without_colon : Text → Text
without_colon [] = []
without_colon (c ∷ s) = if c == b':' then s else c ∷ s

-- What is left behind a token and the delimiter that ends it.
abbrev pub behind_token : Text → Text
behind_token s = drop (suc (token_end b' ' s)) s

abbrev pub token_of : Text → Text
token_of s = drop (run_of b' ' s) (take (token_end b' ' s) s)

abbrev pub or_null : Text → Option Text
or_null [] = none
or_null (c ∷ s) = some (c ∷ s)

unfoldable pub split_line : Text → Option Words
unfolding upcase
split_line line = elim (token_of line) [
  | [] ↦ none
  | c ∷ s ↦ some (record {
    command = upcase (c ∷ s);
    params = elim (token_of (behind_token line)) [
      | [] ↦ none
      | d ∷ t ↦ some (without_colon (d ∷ t), or_null (behind_token (behind_token line)))
    ];
  })
]

abbrev pub par0_of : Words → Option Text
par0_of w = elim w.params [ none ↦ none | some (par0, par1) ↦ some par0 ]

abbrev pub par1_of : Words → Option Text
par1_of w = elim w.params [ none ↦ none | some (par0, par1) ↦ par1 ]

unfoldable pub is_command : Words → Text → Bool
unfolding xstrcmp
is_command w name = xstrcmp (some w.command) (some name)

-- Commands that are carried out without a server.
unfoldable pub offline : ClientCfg → Words → Session → Option Session
unfolding is_command cmd_part cmd_join
offline cfg w st =
    if st.connected == 2
    then some st
    else if is_command w (codes "PART")
    then cmd_part cfg (par0_of w) (par1_of w) st
    else if is_command w (codes "JOIN")
    then some (cmd_join cfg (par0_of w) (par1_of w) st)
    else some st

abbrev pub or_text : Option Text → Text → Text
or_text none t = t
or_text (some s) t = s

-- What a PING of the client is answered with.
abbrev pub pong : ClientCfg → Words → Text
pong cfg w =
    codes ":"
    ++ cfg.realname
    ++ codes " PONG "
    ++ or_text (par1_of w) cfg.realname
    ++ codes " :"
    ++ or_text (par0_of w) cfg.nickname

-- The reason of a QUIT: the rest of the line from the first parameter on.
abbrev pub quit_reason : Words → Text → Option Text
quit_reason w line = elim w.params [
  | none ↦ none
  | some p ↦ let rest = behind_token line in some (without_colon (drop (run_of b' ' rest) rest))
]

abbrev pub is_ctcp : Text → Bool
is_ctcp text = head0 text == b':' && get_or text 1 0 == 1

-- The text of a CTCP message as the DCC bouncer leaves it.
unfoldable pub left_text : ClientCfg → Text → Text
unfolding upcase
left_text cfg text = if cfg.dccbounce == 0 then text else upcase text

-- What is left to do of a CTCP message that passed.
unfoldable pub after_ctcp : ClientCfg → Text → Text → Passed → Passed
unfolding cmd_privmsg
after_ctcp cfg par0 text (pass, st) = if pass == 1 then cmd_privmsg cfg par0 text st else (pass, st)

-- A message, which the DCC bouncer or the logs can want.
unfoldable pub message_line : ClientCfg → Option (Text × Option Text) → Session → Passed
unfolding cmd_privmsg_ctcp cmd_privmsg after_ctcp left_text
message_line cfg none st = (1, st)
message_line cfg (some (par0, none)) st = (1, st)
message_line cfg (some (par0, some text)) st =
    let ctcp = after_ctcp cfg par0 (left_text cfg text) (cmd_privmsg_ctcp cfg par0 text st) in
    if is_ctcp text then ctcp else cmd_privmsg cfg par0 text st

-- Whether a parameter asks for the capability that marks identified users.
unfoldable pub identifies : Option Text → Bool
unfolding lowcase xstrncmp
identifies none = false
identifies (some par0) =
    xstrncmp (some (lowcase par0)) (some (lowcase (codes "IDENTIFY-"))) 9
    && not (ltb (length par0) 9)

unfoldable pub dispatch : ClientCfg → Words → Text → Session → Passed
unfolding is_command message_line cmd_away identifies
dispatch cfg w line st =
    let no_capab =
      did (client (codes ":" ++ cfg.realname ++ codes " 290 " ++ cfg.nickname ++ codes " :")) st in
    if is_command w (codes "PRIVMSG")
    then message_line cfg w.params st
    else if is_command w (codes "PONG")
    then (0, st)
    else if is_command w (codes "PING")
    then (0, did (client (pong cfg w)) st)
    else if is_command w (codes "MIAU")
    then (0, did (commanded (par0_of w) (par1_of w)) st)
    else if is_command w (codes "QUIT")
    then (0, did (dropped (quit_reason w line)) st)
    else if is_command w (codes "AWAY")
    then cmd_away cfg line (par0_of w) st
    else if cfg.no_identify_capab == 1 && is_command w (codes "CAPAB")
    then (if identifies (par0_of w) then (0, no_capab) else (1, st))
    else if st.connected == 2
    then (1, st)
    else (0, st)

-- The rest of the line as the dispatch leaves it.
unfoldable pub text_left : ClientCfg → Bool → Option Text → Option Text
unfolding left_text
text_left cfg privmsg none = none
text_left cfg privmsg (some text) =
    some (if privmsg && is_ctcp text then left_text cfg text else text)

abbrev pub passed_on : ClientCfg → Words → Text → Passed → Option Session
passed_on cfg w line (pass, st) =
    if pass == 1
    then pass_cmd cfg w.command (par0_of w)
        (text_left cfg (is_command w (codes "PRIVMSG")) (par1_of w)) line st
    else some st

-- A line that was read.
unfoldable pub client_read : ClientCfg → Text → Session → Option Session
unfolding split_line offline dispatch pass_cmd
client_read cfg line st = elim (split_line line) [
  | none ↦ some st
  | some w ↦ elim (offline cfg w st) [
    | none ↦ none
    | some st' ↦ passed_on cfg w line (dispatch cfg w line st')
  ]
]
