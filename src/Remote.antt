-- ===== src/Remote.antt =====
-- src/remote.c: commands that come over the network, with a password. The one command is NICK, which gives
-- miau's nick free for a while.
mod Released
mod Examples
use miau.Prelude.{
  ℕ, zero, suc, ◌+◌, ◌-◌, ◌/◌, ◌%◌, Bool, true, false, ◌&&◌, Option, none, some, List, [], ◌∷◌,
  ◌++◌, Text, codes, ltb, ◌==◌, if◌then◌else◌, length, take,
}
use miau.Prelude.Int.{ℤ, pos, negsuc, below}
use miau.Prelude.Strings.{tokens_by}
use miau.Common.{xstrcmp}
use miau.Irc.{Flood, irc_write, irc_msglen}
use miau.Miau.{atoi, negated}

-- What the command changes: the lines to the server, the timer of the nick, and what the user is told.
pub record Remote : Type 0 where
  pub flood : Flood
  pub nickname : ℤ
  pub told : List Text

abbrev pub max_cmd_params : ℕ
max_cmd_params = 4

-- A number as `%d` writes it, with at most `width` digits: 10 are enough for an int.
unfoldable pub decimal : ℕ → ℕ → Text
decimal zero n = []
decimal (suc width) n =
    let front = decimal width (n / 10) in
    if ltb n 10 then (b'0' + n) ∷ [] else front ++ (b'0' + n % 10) ∷ []

unfoldable pub irc_notice : Text → Text → Flood → Flood
unfolding irc_write
irc_notice nick text flood =
    irc_write flood (codes "NOTICE " ++ nick ++ codes " :" ++ take (irc_msglen - 10) text)

-- At least ten seconds.
abbrev pub ten_or : ℤ → ℕ
ten_or (pos n) = if ltb n 10 then 10 else n
ten_or (negsuc n) = 10

unfoldable pub free_time : Text → ℕ
unfolding atoi
free_time word = ten_or (atoi word)

unfoldable pub releasing : Text → ℕ → Text
unfolding decimal
releasing nick time =
    codes "Having nick '" ++ nick ++ codes "' for " ++ decimal 10 time ++ codes " second(s)"

-- NICK with its parameters: exactly two.
unfoldable pub release_nick : List Text → Text → Remote → ℕ × Remote
unfolding free_time irc_notice irc_write releasing
release_nick (name ∷ word ∷ []) nick st =
    let time = free_time word in
    let noticed = irc_notice nick (releasing name time) st.flood in
    if ltb 0 (length name)
    then (
      0,
      record {
        flood = irc_write noticed (codes "NICK " ++ name);
        nickname = negated time;
        told = st.told ++ releasing name time ∷ [];
      },
    )
    else (1, st)
release_nick other nick st = (1, st)

-- Whether the message is passed on, and the state. The parameters are the first four words.
unfoldable pub remote_cmd : Text → Text → Text → Remote → ℕ × Remote
unfolding xstrcmp release_nick
remote_cmd command params nick st =
    if xstrcmp (some command) (some (codes "NICK"))
    then release_nick (take max_cmd_params (tokens_by b' ' [] params)) nick st
    else (1, st)
