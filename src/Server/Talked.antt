-- ===== src/Server/Talked.antt =====
-- src/server.c: the memory of the text that is forwarded, and requests to open a connection.
use miau.Prelude.{
  ℕ, zero, suc, ==_ne, ◌+◌, ◌-◌, ◌≡◌, inl, inr, refl, ap, Option, none, some, List, [], ◌∷◌, ◌++◌,
  Text, ◌==◌, length, take, drop, arith, Bool-cases, Option-cases, length-append,
}
use miau.Server.Talk.{
  cmd_privmsg_number, mincommandvalue, TalkCfg, Talk, bounce, reply_ctcp, answer, parse_msg_me_ctcp,
  privlog_in, pass_ok, remote, size_of, old_text, forward_line, forward,
}
use miau.Server.Privmsg.{heard_by_me, parse_msg_me, chan_logged, parse_msg_chan, parse_privmsg}

take_whole {ℓ} : {A : Type ℓ} (n : ℕ) (xs : List A) → length xs ≡ n → take n xs ≡ xs
take_whole zero [] e = refl
take_whole zero (x ∷ xs) e = absurd (omega (arith, e))
take_whole (suc n) [] e = absurd (omega (arith, e))
take_whole (suc n) (x ∷ xs) e = ap (λ ys. x ∷ ys) (take_whole n xs (omega (arith, e)))

-- The size of the memory is that of the text with its terminator.
unfoldable pub IsFilled : Talk → Type 0
IsFilled st = (text : Text) → st.forwardmsg ≡ some text → st.forwardmsgsize ≡ suc (length text)

length-line :
    (origin text : Text) → length (forward_line origin text) ≡ length origin + length text + 4
length-line origin text =
    omega
      (arith, length-append origin (b')' ∷ b' ' ∷ (text ++ 10 ∷ [])), length-append text (10 ∷ []))

size-old :
    (st : Talk)
    → IsFilled st
    → size_of st.forwardmsg st.forwardmsgsize ≡ suc (length (old_text st.forwardmsg))
unfolding IsFilled
size-old st h = elim (Option-cases st.forwardmsg) [
  | inl e ↦ rw e refl
  | inr (text, e) ↦ rw e (h text e)
]

-- The line is written behind the text that waits already, and nothing of it is cut: the memory has room
-- for it exactly, where it had for the text before.
pub forward-whole :
    (origin text : Text) (st : Talk)
    → IsFilled st
    → ((forward origin text st).forwardmsg
        ≡ some (old_text st.forwardmsg ++ forward_line origin text))
      × ((forward origin text st).forwardmsgsize
          ≡ suc (length (old_text st.forwardmsg ++ forward_line origin text)))
unfolding forward
forward-whole origin text st h =
    let size = size-old st h in
    let line = length-line origin text in
    (
      rw
          (
            size,
            take_whole (suc (length (old_text st.forwardmsg)) - 1) (old_text st.forwardmsg)
                (omega arith),
            take_whole
                (suc (length (old_text st.forwardmsg))
                  + (length origin + length text + 4)
                  - (suc (length (old_text st.forwardmsg)) - 1)
                  - 1)
                (forward_line origin text) (omega (arith, line)),
          )
          refl,
      omega (arith, size, line, length-append (old_text st.forwardmsg) (forward_line origin text)),
    )

bounce-never :
    (cfg : TalkCfg) (origin param1 param2 : Text) (k : ℕ) (st : Talk)
    → bounce cfg origin param1 param2 (mincommandvalue + k) st ≡ st
unfolding bounce
bounce-never cfg origin param1 param2 k st =
    rw (==_ne (mincommandvalue + k) cmd_privmsg_number (λ e. omega (arith, e)))
      (elim (Bool-cases (cfg.connected == 0)) [ inl e ↦ rw e refl | inr e ↦ rw e refl ])

-- The configuration with other ways to take over connections.
abbrev pub bouncing : ℕ → (Text → Option Text) → TalkCfg → TalkCfg
bouncing n initiate cfg = record cfg { dccbounce = n; dcc_initiate = initiate }

module _ (n : ℕ) (initiate : Text → Option Text) (cfg : TalkCfg) (nick hostname param1 : Text)
    (k : ℕ) (st : Talk) where
  ctcp-bouncing :
      (origin param2 : Text) (st' : Talk)
      → parse_msg_me_ctcp
          (bouncing n initiate cfg)
          origin
          nick
          hostname
          param1
          param2
          (mincommandvalue + k)
          st'
        ≡ parse_msg_me_ctcp cfg origin nick hostname param1 param2 (mincommandvalue + k) st'
  unfolding parse_msg_me_ctcp reply_ctcp answer
  ctcp-bouncing origin param2 st' =
      rw
        (
          bounce-never (bouncing n initiate cfg) origin param1 param2 k st',
          bounce-never cfg origin param1 param2 k st',
        )
        refl

  privlog-bouncing :
      (text : Text)
      → privlog_in (bouncing n initiate cfg) nick (mincommandvalue + k) text st
        ≡ privlog_in cfg nick (mincommandvalue + k) text st
  unfolding privlog_in
  privlog-bouncing text = refl

  remote-bouncing :
      (param2 : Text) → remote (bouncing n initiate cfg) nick param2 ≡ remote cfg nick param2
  unfolding remote pass_ok
  remote-bouncing param2 = refl

  heard-bouncing :
      (origin param2 : Text)
      → heard_by_me
          (bouncing n initiate cfg)
          origin
          nick
          hostname
          param1
          param2
          (mincommandvalue + k)
          st
        ≡ heard_by_me cfg origin nick hostname param1 param2 (mincommandvalue + k) st
  unfolding heard_by_me
  heard-bouncing origin param2 =
      rw
        (
          privlog-bouncing (drop 1 param2),
          remote-bouncing param2,
          ctcp-bouncing origin param2
              (privlog_in cfg nick (mincommandvalue + k) (drop 1 param2) st),
        )
        refl

  parse_msg_me-bouncing :
      (origin param2 : Text)
      → parse_msg_me
          (bouncing n initiate cfg)
          origin
          nick
          hostname
          param1
          param2
          (mincommandvalue + k)
          st
        ≡ parse_msg_me cfg origin nick hostname param1 param2 (mincommandvalue + k) st
  unfolding parse_msg_me
  parse_msg_me-bouncing origin param2 = rw (heard-bouncing origin param2) refl

-- Whatever is set for connections to be taken over, and whatever takes them over: a message from the
-- server has the same outcome, since the number of its command is never below 1000.
pub parse_privmsg-bouncing :
    (n : ℕ) (initiate : Text → Option Text) (cfg : TalkCfg) (param1 : Text) (param2 : Option Text)
    (nick hostname : Text) (k : ℕ) (st : Talk)
    → parse_privmsg (bouncing n initiate cfg) param1 param2 nick hostname (mincommandvalue + k) st
      ≡ parse_privmsg cfg param1 param2 nick hostname (mincommandvalue + k) st
unfolding parse_privmsg parse_msg_chan chan_logged
parse_privmsg-bouncing n initiate cfg param1 none nick hostname k st = refl
parse_privmsg-bouncing n initiate cfg param1 (some param2) nick hostname k st =
    rw
      (parse_msg_me-bouncing n initiate cfg nick hostname param1 k st (nick ++ b'!' ∷ hostname)
        param2)
      refl
