-- ===== src/Miau/Silent.antt =====
-- src/miau.c: a client that says nothing is dropped.
use miau.Prelude.{
  ℕ, zero, suc, ◌≡◌, ◌∙◌, ◌<◌, ◌≤◌, inl, inr, refl, ap, not, ◌&&◌, List, [], ◌∷◌, ◌++◌, All, arith,
  dec_lt, Bool-cases, ◌==◌, length,
}
use miau.Prelude.Int.{ℤ, pos, above}
use miau.Miau.{proceed_timer}
use miau.Miau.Clock.{
  ClockCfg, Clock, client_second, clients_second, check_clients, check_idle, check_server,
  check_newclient, check_throttles, wants_nick, check_nick, check_connect, check_timers,
}
use miau.Miau.Kept.{early-kept, late-kept, connect-kept}
use miau.Miau.Timer.{proceed-on, proceed-off}

-- The clients have been silent for `k` seconds and more, and less than two minutes.
abbrev pub AreSilent : ℕ → List (ℕ × ℤ) → Type 0
AreSilent k = All (λ (c : ℕ × ℤ). (n : ℕ) × (c.1 ≡ pos n) × (k ≤ n) × (n < 120))

client-AreSilent :
    (k socket n : ℕ) → k ≤ n → n < 120 → AreSilent (suc k) (client_second (socket, pos n)).0
unfolding client_second
client-AreSilent k socket n le lt = elim (dec_lt (suc n) 120) [
  | yes below ↦
      let (same, off) = proceed-on 60 120 10 n below in
      rw off ((suc n, same, omega arith, below), tt)
  | no above ↦ rw (proceed-off 60 120 10 n (omega arith)) tt
]

client_at-AreSilent :
    (k socket n : ℕ) (t : ℤ)
    → t ≡ pos n
    → k ≤ n
    → n < 120
    → AreSilent (suc k) (client_second (socket, t)).0
client_at-AreSilent k socket n t e le lt = rw e (client-AreSilent k socket n le lt)

AreSilent-append :
    (k : ℕ) (xs ys : List (ℕ × ℤ)) → AreSilent k xs → AreSilent k ys → AreSilent k (xs ++ ys)
AreSilent-append k [] ys hx hy = hy
AreSilent-append k (x ∷ xs) ys (h, hx) hy = (h, AreSilent-append k xs ys hx hy)

clients-AreSilent :
    (k : ℕ) (cs : List (ℕ × ℤ)) → AreSilent k cs → AreSilent (suc k) (clients_second cs).0
unfolding clients_second
clients-AreSilent k [] h = tt
clients-AreSilent k ((socket, t) ∷ cs) ((n, e, le, lt), hs) =
    AreSilent-append (suc k) (client_second (socket, t)).0 (clients_second cs).0
      (client_at-AreSilent k socket n t e le lt) (clients-AreSilent k cs hs)

nick-clients : (cfg : ClockCfg) (st : Clock) → (check_nick cfg st).clients ≡ st.clients
unfolding check_nick
nick-clients cfg st =
    elim (Bool-cases
      (not st.got_nick && not (cfg.getnick == 0) && st.connected == 2 && above 0 st.msgtimer)) [
        | inl e ↦
            elim (Bool-cases (
              (proceed_timer st.nickname 0 cfg.getnickinterval).0 == 2
              && wants_nick cfg.getnick (length st.clients))) [
                | inl f ↦ rw (e, f) refl
                | inr f ↦ rw (e, f) refl
              ]
        | inr e ↦ rw e refl
      ]

checked-clients : (st : Clock) → (check_clients st).clients ≡ (clients_second st.clients).0
unfolding check_clients
checked-clients st = refl

timers-clients :
    (cfg : ClockCfg) (st : Clock) → (check_timers cfg st).clients ≡ (clients_second st.clients).0
unfolding check_timers
timers-clients cfg st =
    let a = check_connect cfg st in
    let b = check_clients a in
    let c = check_idle cfg b in
    let d = check_server cfg c in
    let e = check_newclient d in
    let f = check_throttles e in
    let g = check_nick cfg f in
    ap (λ k. k.0) (late-kept cfg g)
    ∙ nick-clients cfg f
    ∙ ap (λ k. k.0) (early-kept cfg b)
    ∙ checked-clients a
    ∙ ap (λ k. (clients_second k.0).0) (connect-kept cfg st)

-- `k` seconds in which no client says anything.
unfoldable pub silence : ClockCfg → ℕ → Clock → Clock
unfolding check_timers
silence cfg zero st = st
silence cfg (suc k) st = check_timers cfg (silence cfg k st)

silence-AreSilent :
    (cfg : ClockCfg) (k : ℕ) (st : Clock)
    → AreSilent 0 st.clients
    → AreSilent k (silence cfg k st).clients
unfolding silence
silence-AreSilent cfg zero st h = h
silence-AreSilent cfg (suc k) st h =
    rw (timers-clients cfg (silence cfg k st))
      (clients-AreSilent k (silence cfg k st).clients (silence-AreSilent cfg k st h))

AreSilent-gone : (k : ℕ) (cs : List (ℕ × ℤ)) → 120 ≤ k → AreSilent k cs → cs ≡ []
AreSilent-gone k [] h s = refl
AreSilent-gone k (c ∷ cs) h ((n, e, le, lt), hs) = absurd (omega arith)

-- However many clients there are, and whatever else the timers have miau do: after two minutes in which
-- they all say nothing, each was dropped.
pub silence-gone :
    (cfg : ClockCfg) (k : ℕ) (st : Clock)
    → AreSilent 0 st.clients
    → 120 ≤ k
    → (silence cfg k st).clients ≡ []
silence-gone cfg k st h long =
    AreSilent-gone k (silence cfg k st).clients long (silence-AreSilent cfg k st h)
