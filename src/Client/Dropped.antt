-- ===== src/Client/Dropped.antt =====
-- The list of clients and their number after a connection of a client has ended.
use miau.Prelude.{
  ℕ, suc, ◌-◌, ◌≡◌, inl, inr, refl, ap, ◌∙◌, Bool, true, false, Option, none, some, List, [], ◌∷◌,
  ◌++◌, Text, arith, Bool-cases, ◌==◌, ==_refl, if◌then◌else◌, length,
}
use miau.Client.Drop.{
  MsgType, DropCfg, Clients, unlisted, client_drop_real, is_dying, drop_each, after_drop,
  client_drop, farewells,
}

-- The number that is kept is the number of the clients.
abbrev pub Counted : Clients → Type 0
Counted st = st.connected ≡ length st.clients

abbrev pub is_listed : ℕ → List ℕ → Bool
is_listed c [] = false
is_listed c (d ∷ ds) = if d == c then true else is_listed c ds

unlisted-length :
    (c : ℕ) (cs : List ℕ)
    → is_listed c cs ≡ true
    → (rest : List ℕ) × (unlisted c cs ≡ some rest) × (suc (length rest) ≡ length cs)
unfolding unlisted
unlisted-length c [] h = absurd (ground arith)
unlisted-length c (d ∷ ds) h = elim (Bool-cases (d == c)) [
  | inl e ↦ (ds, rw e refl, refl)
  | inr e ↦
      let (rest, f, n) = unlisted-length c ds (rw e at h) in
      (d ∷ rest, rw (e, f, unlisted) refl, ap suc n)
]

-- A client that is connected is dropped: it is no fault, there is one client less on the list, and the
-- number that is kept is right if it was before.
pub client_drop-Counted :
    (cfg : DropCfg) (client : ℕ) (reason awaymsg : Option Text) (msgtype : MsgType) (echo : ℕ)
    (st : Clients)
    → Counted st
    → is_listed client st.clients ≡ true
    → (after : Clients) × (client_drop cfg (some client) reason msgtype echo awaymsg st
        ≡ some after)
      × Counted after
      × (suc after.connected ≡ st.connected)
unfolding client_drop client_drop_real after_drop
client_drop-Counted cfg client reason awaymsg msgtype echo st n h =
    let (rest, e, len) = unlisted-length client st.clients h in
    let left : Clients = record {
      clients = rest;
      connected = st.connected - 1;
      calls = st.calls ++ farewells client reason echo (is_dying msgtype);
    } in
    (
      after_drop cfg msgtype reason awaymsg left,
      rw (e, client_drop, client_drop_real) refl,
      omega arith,
      omega arith,
    )

head_unlisted : (c : ℕ) (cs : List ℕ) → unlisted c (c ∷ cs) ≡ some cs
unfolding unlisted
head_unlisted c cs = rw (==_refl c c refl) refl

first_dropped :
    (c : ℕ) (cs : List ℕ) (reason : Option Text) (echo : ℕ) (dying : Bool) (st : Clients)
    → st.clients ≡ c ∷ cs
    → client_drop_real c reason echo dying st
      ≡ some (record {
        clients = cs;
        connected = st.connected - 1;
        calls = st.calls ++ farewells c reason echo dying;
      })
unfolding client_drop_real
first_dropped c cs reason echo dying st e = rw (e, head_unlisted c cs, client_drop_real) refl

drop_step :
    (c : ℕ) (cs : List ℕ) (reason : Option Text) (echo : ℕ) (dying : Bool) (st left : Clients)
    → client_drop_real c reason echo dying st ≡ some left
    → drop_each (c ∷ cs) reason echo dying st ≡ drop_each cs reason echo dying left
unfolding drop_each
drop_step c cs reason echo dying st left e = rw (e, drop_each) refl

each-Counted :
    (cs : List ℕ) (reason : Option Text) (echo : ℕ) (dying : Bool) (st : Clients)
    → st.clients ≡ cs
    → Counted st
    → (after : Clients) × (drop_each cs reason echo dying st ≡ some after)
      × (after.clients ≡ [])
      × (after.connected ≡ 0)
unfolding drop_each
each-Counted [] reason echo dying st e n = (st, refl, e, rw e at n)
each-Counted (c ∷ cs) reason echo dying st e n =
    let first : Clients = record {
      clients = cs;
      connected = st.connected - 1;
      calls = st.calls ++ farewells c reason echo dying;
    } in
    let (after, f, none_left, zero_left) =
      each-Counted cs reason echo dying first refl (omega (arith, ap length e)) in
    (
      after,
      drop_step c cs reason echo dying st first (first_dropped c cs reason echo dying st e) ∙ f,
      none_left,
      zero_left,
    )

-- Dropping all clients ends, is no fault, and leaves none, and the number that is kept is 0, if it was
-- right before.
pub client_drop_all :
    (cfg : DropCfg) (reason awaymsg : Option Text) (msgtype : MsgType) (echo : ℕ) (st : Clients)
    → Counted st
    → (after : Clients) × (client_drop cfg none reason msgtype echo awaymsg st ≡ some after)
      × (after.clients ≡ [])
      × (after.connected ≡ 0)
unfolding client_drop after_drop
client_drop_all cfg reason awaymsg msgtype echo st n =
    let (left, e, none_left, zero_left) =
      each-Counted st.clients reason echo (is_dying msgtype) st refl n in
    (after_drop cfg msgtype reason awaymsg left, rw (e, client_drop) refl, none_left, zero_left)
