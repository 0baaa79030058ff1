-- ===== src/Remote/Released.antt =====
-- src/remote.c, src/miau.c: how long a nick that was given free stays free.
use mathlib.Core.Path.{subst, ap}
use miau.Prelude.{
  ℕ, zero, suc, ◌+◌, ◌≡◌, ◌∙◌, ◌<◌, ◌≤◌, refl, sym, inl, inr, Bool, true, false, not, ◌&&◌, some,
  List, [], ◌∷◌, Text, arith, codes, take, Bool-cases, ltb, ◌==◌, if◌then◌else◌, length,
}
use miau.Prelude.Int.{ℤ, pos, negsuc, above, below}
use miau.Prelude.Strings.{tokens_by}
use miau.Common.{xstrcmp}
use miau.Miau.{atoi, inc, is, negated, proceed_timer_safe, proceed_timer}
use miau.Miau.Kept.{early-kept, late-kept, connect-kept}
use miau.Miau.Clock.{
  ClockCfg, Clock, check_nick, check_timers, check_clients, check_connect, check_throttles,
  check_newclient, check_server, check_idle,
}
use miau.Remote.{max_cmd_params, Remote, ten_or, free_time, release_nick, remote_cmd}

-- `check_timers`, second after second.
unfoldable pub nick_seconds : ClockCfg → ℕ → Clock → Clock
unfolding check_timers
nick_seconds cfg zero st = st
nick_seconds cfg (suc k) st = nick_seconds cfg k (check_timers cfg st)

-- A timer that `k` seconds do not bring to `exceed`.
IsFar : ℕ → ℕ → ℤ → Type 0
IsFar exceed k (pos n) = n + k < exceed
IsFar exceed k (negsuc n) = k < exceed + suc n

IsFar-inc : (exceed k : ℕ) (t : ℤ) → IsFar exceed (suc k) t → IsFar exceed k (inc t)
unfolding IsFar
IsFar-inc exceed k (pos n) h = omega arith
IsFar-inc exceed k (negsuc zero) h = omega arith
IsFar-inc exceed k (negsuc (suc n)) h = omega arith

IsFar-less : (exceed k : ℕ) (t : ℤ) → IsFar exceed (suc k) t → IsFar exceed k t
unfolding IsFar
IsFar-less exceed k (pos n) h = omega arith
IsFar-less exceed k (negsuc n) h = omega arith

far_below :
    (exceed k : ℕ) (t : ℤ) → 1 ≤ exceed → IsFar exceed (suc k) t → below (inc t) exceed ≡ true
unfolding IsFar
far_below exceed k (pos n) p h = ground arith
far_below exceed k (negsuc zero) p h = ground arith
far_below exceed k (negsuc (suc n)) p h = refl

-- Where the timer is below its end, it goes on by one and does not go off.
proceed_below :
    (t : ℤ) (exceed : ℕ)
    → below (inc t) exceed ≡ true
    → ((proceed_timer t 0 exceed).1 ≡ inc t) × (((proceed_timer t 0 exceed).0 == 2) ≡ false)
unfolding proceed_timer
proceed_below t exceed h = elim (Bool-cases (is (inc t) 0)) [
  | inl e ↦ rw (h, e, proceed_timer, proceed_timer_safe) (refl, refl)
  | inr e ↦ rw (h, e, proceed_timer, proceed_timer_safe) (refl, refl)
]

check_nick-IsFar :
    (cfg : ClockCfg) (k : ℕ) (st : Clock)
    → 1 ≤ cfg.getnickinterval
    → IsFar cfg.getnickinterval (suc k) st.nickname
    → ((check_nick cfg st).getting_nick ≡ st.getting_nick)
      × IsFar cfg.getnickinterval k (check_nick cfg st).nickname
unfolding check_nick
check_nick-IsFar cfg k st p h =
    let exceed = cfg.getnickinterval in
    let (t, off) = proceed_below st.nickname exceed (far_below exceed k st.nickname p h) in
    elim (Bool-cases
      (not st.got_nick && not (cfg.getnick == 0) && st.connected == 2 && above 0 st.msgtimer)) [
        | inl e ↦
            rw (e, off, check_nick)
              (refl, subst (IsFar exceed k) (sym t) (IsFar-inc exceed k st.nickname h))
        | inr e ↦ rw (e, check_nick) (refl, IsFar-less exceed k st.nickname h)
      ]

-- The other parts of `check_timers` leave the timer and the number of tries as they are.
check_timers-IsFar :
    (cfg : ClockCfg) (k : ℕ) (st : Clock)
    → 1 ≤ cfg.getnickinterval
    → IsFar cfg.getnickinterval (suc k) st.nickname
    → ((check_timers cfg st).getting_nick ≡ st.getting_nick)
      × IsFar cfg.getnickinterval k (check_timers cfg st).nickname
unfolding check_timers check_clients
check_timers-IsFar cfg k st p h =
    let exceed = cfg.getnickinterval in
    let b = check_clients (check_connect cfg st) in
    let f = check_throttles (check_newclient (check_server cfg (check_idle cfg b))) in
    let connected = connect-kept cfg st in
    let early = early-kept cfg b in
    let late = late-kept cfg (check_nick cfg f) in
    let timer : f.nickname ≡ st.nickname = ap (λ n. n.1) early ∙ ap (λ n. n.1) connected in
    let tries : f.getting_nick ≡ st.getting_nick = ap (λ n. n.2) early ∙ ap (λ n. n.2) connected in
    let (same, far) = check_nick-IsFar cfg k f p (subst (IsFar exceed (suc k)) (sym timer) h) in
    (ap (λ n. n.2) late ∙ same ∙ tries, subst (IsFar exceed k) (sym (ap (λ n. n.1) late)) far)

stays_far :
    (cfg : ClockCfg) (k : ℕ) (st : Clock)
    → 1 ≤ cfg.getnickinterval
    → IsFar cfg.getnickinterval k st.nickname
    → (nick_seconds cfg k st).getting_nick ≡ st.getting_nick
unfolding nick_seconds
stays_far cfg zero st p h = refl
stays_far cfg (suc k) st p h =
    let (same, far) = check_timers-IsFar cfg k st p h in
    stays_far cfg k (check_timers cfg st) p far ∙ same

ten_or-ten : (t : ℤ) → 10 ≤ ten_or t
ten_or-ten (pos n) = ground arith
ten_or-ten (negsuc n) = omega arith

negated-IsFar : (exceed k n : ℕ) → k < n + exceed → IsFar exceed k (negated n)
unfolding IsFar
negated-IsFar exceed k zero h = omega arith
negated-IsFar exceed k (suc n) h = omega arith

-- What was carried out has its time on the timer.
abbrev HasTime : ℕ × Remote → Type 0
HasTime r = r.0 ≡ 0 → (t : ℤ) × (r.1.nickname ≡ negated (ten_or t))

HasTime-if : (b : Bool) (x y : ℕ × Remote) → HasTime x → HasTime y → HasTime (if b then x else y)
HasTime-if true x y hx hy = hx
HasTime-if false x y hx hy = hy

nothing_done : (st : Remote) → HasTime (1, st)
nothing_done st e = absurd (ground arith)

released-HasTime :
    (words : List Text) (nick : Text) (st : Remote) → HasTime (release_nick words nick st)
unfolding release_nick free_time
released-HasTime [] nick st = nothing_done st
released-HasTime (name ∷ []) nick st = nothing_done st
released-HasTime (name ∷ word ∷ []) nick st =
    HasTime-if (ltb 0 (length name)) _ _ (λ e. (atoi word, refl)) (nothing_done st)
released-HasTime (name ∷ word ∷ more ∷ words) nick st = nothing_done st

remote_cmd-HasTime :
    (command params nick : Text) (st : Remote) → HasTime (remote_cmd command params nick st)
unfolding remote_cmd
remote_cmd-HasTime command params nick st =
    let words = take max_cmd_params (tokens_by b' ' [] params) in
    HasTime-if (xstrcmp (some command) (some (codes "NICK"))) (release_nick words nick st) (1, st)
      (released-HasTime words nick st) (nothing_done st)

-- After a command over the network that was carried out, and where the time between two tries for the nick is
-- not 0: in fewer seconds than ten and that time together the timers try for the nick no more, whatever
-- else they have miau do. It is the timers alone that run, with the state that they read as they leave it.
pub remote_cmd-free :
    (cfg : ClockCfg) (clock : Clock) (command params nick : Text) (st : Remote) (k : ℕ)
    → 1 ≤ cfg.getnickinterval
    → (remote_cmd command params nick st).0 ≡ 0
    → k < 10 + cfg.getnickinterval
    → let released = record clock { nickname = (remote_cmd command params nick st).1.nickname } in
      (nick_seconds cfg k released).getting_nick ≡ clock.getting_nick
remote_cmd-free cfg clock command params nick st k p e lt =
    let (t, is_time) = remote_cmd-HasTime command params nick st e in
    let far = negated-IsFar cfg.getnickinterval k (ten_or t) (omega (arith, ten_or-ten t)) in
    stays_far cfg k (record clock { nickname = (remote_cmd command params nick st).1.nickname }) p
      (subst (IsFar cfg.getnickinterval k) (sym is_time) far)
