-- ===== src/Miau/Locked.antt =====
-- src/miau.c: who gets in.
use miau.Prelude.{
  ℕ, suc, ◌≡◌, ◌∙◌, ap, inl, inr, refl, Bool, true, false, ◌&&◌, ◌||◌, none, some, List, [], ◌∷◌,
  Text, codes, text_eq, All, arith, Bool-cases, Option-cases, ◌==◌, length, take, drop,
}
use miau.Prelude.Strings.{token_end}
use miau.Tools.{upcase}
use miau.Miau.Login.{
  LoginCfg, Login, is_password, unprefixed, word_of, pass_line, nick_line, user_line, let_in,
  newclient_line, read_newclient, drop_newclient, accept, Event, line, accepted, closed, step, run,
}

abbrev pub is_pass : LoginCfg → Text → Text → Bool
is_pass cfg command param =
    text_eq (upcase command) (codes "PASS") && is_password cfg (unprefixed param)

-- Whether an event is a line with the right password.
unfoldable pub gives_password : LoginCfg → Event → Bool
unfolding is_password upcase
gives_password cfg (line buffer) = elim (word_of (take 30 buffer)) [
  | none ↦ false
  | some command ↦
      is_pass cfg command (drop (suc (token_end b' ' (take 30 buffer))) (take 30 buffer))
]
gives_password cfg (accepted host socket) = false
gives_password cfg closed = false

-- Nobody has got in, and nobody will without a password.
abbrev IsShut : Login → Login → Type 0
IsShut before after = (after.clients ≡ before.clients) × (after.passok ≡ false)

pass_line-IsShut :
    (cfg : LoginCfg) (command param : Text) (st : Login)
    → (text_eq command (codes "PASS") && is_password cfg (unprefixed param)) ≡ false
    → st.passok ≡ false
    → IsShut st (pass_line cfg command param st)
unfolding pass_line
pass_line-IsShut cfg command param st wrong shut = ground arith

names-IsShut :
    (command param : Text) (st : Login)
    → st.passok ≡ false
    → IsShut st (user_line command param (nick_line command param st))
unfolding user_line nick_line
names-IsShut command param st shut = ground arith

let_in-IsShut : (st : Login) → st.passok ≡ false → IsShut st (let_in st)
unfolding let_in
let_in-IsShut st shut = ground arith

line-IsShut :
    (cfg : LoginCfg) (command param : Text) (st : Login)
    → is_pass cfg command param ≡ false
    → st.passok ≡ false
    → IsShut st (newclient_line cfg command param st)
unfolding newclient_line
line-IsShut cfg command param st wrong shut =
    let (same, off) = pass_line-IsShut cfg (upcase command) param st wrong shut in
    let (same', off') =
      names-IsShut (upcase command) param (pass_line cfg (upcase command) param st) off in
    let (same'', off'') =
      let_in-IsShut
        (user_line (upcase command) param
          (nick_line (upcase command) param (pass_line cfg (upcase command) param st)))
        off' in
    (same'' ∙ same' ∙ same, off'')

step-IsShut :
    (cfg : LoginCfg) (e : Event) (st : Login)
    → gives_password cfg e ≡ false
    → st.passok ≡ false
    → IsShut st (step cfg e st)
unfolding step gives_password read_newclient accept drop_newclient
step-IsShut cfg (line buffer) st wrong shut = elim (Bool-cases st.connected) [
  | inr e ↦ rw e (refl, shut)
  | inl e ↦ elim (Option-cases (word_of (take 30 buffer))) [
    | inl f ↦ rw (e, f, read_newclient) (refl, shut)
    | inr (command, f) ↦
        let param = drop (suc (token_end b' ' (take 30 buffer))) (take 30 buffer) in
        let never = line-IsShut cfg command param st (rw (f, gives_password) at wrong) shut in
        elim (Bool-cases (length param == 0)) [
          | inl g ↦ rw (e, f, g, read_newclient) (refl, shut)
          | inr g ↦ rw (e, f, g, read_newclient) never
        ]
  ]
]
step-IsShut cfg (accepted host socket) st wrong shut = ground arith
step-IsShut cfg closed st wrong shut = ground arith

-- Whatever connections come and go, and whatever they say: as long as no line gives the right password,
-- nobody gets in, where no password was given before.
pub run-shut :
    (cfg : LoginCfg) (es : List Event) (st : Login)
    → All (λ e. gives_password cfg e ≡ false) es
    → st.passok ≡ false
    → ((run cfg es st).clients ≡ st.clients) × ((run cfg es st).passok ≡ false)
unfolding run
run-shut cfg [] st wrong shut = (refl, shut)
run-shut cfg (e ∷ es) st (w, ws) shut =
    let (same, off) = step-IsShut cfg e st w shut in
    let (same', off') = run-shut cfg es (step cfg e st) ws off in (same' ∙ same, off')

let_in-not : (st : Login) → (st.nick_seen && st.user_seen) ≡ false → let_in st ≡ st
unfolding let_in
let_in-not st h = elim (Bool-cases st.nick_seen) [
  | inl e ↦ elim (Bool-cases st.user_seen) [
    | inl f ↦ absurd (ground arith)
    | inr f ↦ elim (Bool-cases st.pass_seen) [
      | inl g ↦ rw (e, f, g) refl
      | inr g ↦ rw (e, f, g) refl
    ]
  ]
  | inr e ↦ elim (Bool-cases st.pass_seen) [ inl g ↦ rw (e, g) refl | inr g ↦ rw (e, g) refl ]
]

pass_said :
    (cfg : LoginCfg) (word : Text) (st : Login)
    → st.pass_seen ≡ false
    → (st.nick_seen && st.user_seen) ≡ false
    → newclient_line cfg (codes "PASS") word st
      ≡ record st { passok = is_password cfg (unprefixed word) || st.passok; pass_seen = true }
unfolding newclient_line upcase pass_line nick_line user_line miau.Tools.to_upper
pass_said cfg word st fresh h = rw fresh (
    let_in-not
      (record st { passok = is_password cfg (unprefixed word) || st.passok; pass_seen = true }) h)

nick_said :
    (cfg : LoginCfg) (nick : Text) (st : Login)
    → st.user_seen ≡ false
    → newclient_line cfg (codes "NICK") nick st
      ≡ record st { nick_seen = true; nickname = word_of nick }
unfolding newclient_line upcase pass_line nick_line user_line miau.Tools.to_upper
nick_said cfg nick st h = let_in-not (record st { nick_seen = true; nickname = word_of nick }) h

user_said :
    (cfg : LoginCfg) (user : Text) (st : Login)
    → st.pass_seen ≡ true
    → st.nick_seen ≡ true
    → st.passok ≡ true
    → (newclient_line cfg (codes "USER") user st).clients ≡ st.socket ∷ st.clients
unfolding newclient_line upcase pass_line nick_line user_line let_in miau.Tools.to_upper
user_said cfg user st p n ok = rw (p, n, ok) refl

-- The three lines of a client.
unfoldable pub says : LoginCfg → Text → Text → Text → Login → Login
unfolding newclient_line
says cfg word nick user st =
    newclient_line cfg (codes "USER") user
      (newclient_line cfg (codes "NICK") nick (newclient_line cfg (codes "PASS") word st))

-- A client that gives the right word gets in with its NICK and USER.
pub says-in :
    (cfg : LoginCfg) (word nick user : Text) (st : Login)
    → st.pass_seen ≡ false
    → st.nick_seen ≡ false
    → st.user_seen ≡ false
    → (is_password cfg (unprefixed word) || st.passok) ≡ true
    → (says cfg word nick user st).clients ≡ st.socket ∷ st.clients
unfolding says
says-in cfg word nick user st p n u ok =
    let passed : Login = record st {
      passok = is_password cfg (unprefixed word) || st.passok;
      pass_seen = true;
    } in
    let named : Login = record passed { nick_seen = true; nickname = word_of nick } in
    ap
      (λ x.
        (newclient_line cfg (codes "USER") user (newclient_line cfg (codes "NICK") nick x)).clients)
      (pass_said cfg word st p (rw n refl))
    ∙ ap (λ x. (newclient_line cfg (codes "USER") user x).clients) (nick_said cfg nick passed u)
    ∙ user_said cfg user named refl refl ok

-- A connection that is closed, and the next one that is accepted.
unfoldable pub next_one : Text → ℕ → Login → Login
unfolding accept drop_newclient
next_one host socket st = accept host socket (drop_newclient st)

says-opened :
    (cfg : LoginCfg) (word nick user host : Text) (socket : ℕ) (st : Login)
    → st.connected ≡ true
    → st.passok ≡ true
    → (says cfg word nick user (next_one host socket st)).clients ≡ socket ∷ st.clients
unfolding next_one accept drop_newclient
says-opened cfg word nick user host socket st c ok =
    let open_door : Login = record st {
      hostname = some host;
      connected = true;
      socket = socket;
      pass_seen = false;
      nick_seen = false;
      user_seen = false;
    } in
    ap (λ x. (says cfg word nick user x).clients) (rw c refl)
    ∙ says-in cfg word nick user open_door refl refl refl (rw ok (ground arith))

-- A client that gave the right password and is gone before its NICK and USER leaves the door open:
-- whatever word the next one gives, it gets in with its own NICK and USER.
pub says-stranger :
    (cfg : LoginCfg) (right word nick user host : Text) (socket : ℕ) (st : Login)
    → is_password cfg (unprefixed right) ≡ true
    → st.connected ≡ true
    → st.pass_seen ≡ false
    → (st.nick_seen && st.user_seen) ≡ false
    → (says cfg word nick user
        (next_one host socket (newclient_line cfg (codes "PASS") right st))).clients
      ≡ socket ∷ st.clients
says-stranger cfg right word nick user host socket st known there fresh h =
    let passed : Login = record st { passok = true; pass_seen = true } in
    ap (λ x. (says cfg word nick user (next_one host socket x)).clients)
      (pass_said cfg right st fresh h ∙ rw known refl)
    ∙ says-opened cfg word nick user host socket passed there refl
