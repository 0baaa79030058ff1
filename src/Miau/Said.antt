-- ===== src/Miau/Said.antt =====
-- src/miau.c: what the server is told when the last client has left.
use miau.Prelude.{
  ℕ, zero, suc, ◌≤◌, ◌≡◌, ap, length, take, inl, inr, refl, Bool, true, false, not, ◌&&◌, ◌||◌,
  Option, none, some, List, [], ◌∷◌, ◌++◌, Text, map, codes, All, arith, Bool-cases, ◌==◌,
  if◌then◌else◌, drop,
}
use miau.Prelude.Strings.{fields_by}
use miau.Irc.{cut}
use miau.Channels.{ChannelType}
use miau.Miau.Away.{
  AwayCfg, sent, Away, mark_away, given, set_away, chan_list, farewell, leave_channels, printed,
  is_none, either, chosen,
}
use miau.Miau.Left.{NoComma, chan_list-names}

take_all : (n : ℕ) (text : Text) → length text ≤ n → take n text ≡ text
take_all zero [] le = refl
take_all (suc n) [] le = refl
take_all zero (c ∷ text) le = absurd (omega arith)
take_all (suc n) (c ∷ text) le = ap (◌∷◌ c) (take_all n text (omega arith))

cut-short : (text : Text) → length text ≤ 517 → cut text ≡ text
unfolding cut
cut-short text le = take_all 517 text le

-- Where channels are to be left with a message, no name has a comma, and the line has at most 517
-- characters: one PART goes to the server, and the names in it are those of all active channels in their
-- order.
pub leave_channels-part :
    (cfg : AwayCfg) (reason : Option Text) (msg : Text) (st : Away) (c : ChannelType)
    (cs : List ChannelType)
    → cfg.leave ≡ 1
    → cfg.leavemsg ≡ some msg
    → st.channels.active_channels ≡ c ∷ cs
    → All (λ (d : ChannelType). NoComma d.name) (c ∷ cs)
    → length (
        codes "PART "
        ++ drop 1 (chan_list (c ∷ cs))
        ++ codes " :"
        ++ printed (chosen cfg.usequitmsg reason (some msg)))
      ≤ 517
    → (names : Text) × ((leave_channels cfg reason st).told
        ≡ st.told
          ++ sent (
              codes "PART "
              ++ names
              ++ codes " :"
              ++ printed (chosen cfg.usequitmsg reason (some msg)))
            ∷ [])
      × (fields_by b',' [] names ≡ map (λ (d : ChannelType). d.name) st.channels.active_channels)
unfolding leave_channels farewell
leave_channels-part cfg reason msg st c cs one text act plain short = (
  drop 1 (chan_list (c ∷ cs)),
  rw (act, one, text) (ap (λ t. st.told ++ sent t ∷ []) (cut-short _ short)),
  rw act (chan_list-names c cs plain),
)

IsSettled : AwayCfg → Away → Type 0
IsSettled cfg st = set_away cfg none st ≡ st

away-IsSettled : (cfg : AwayCfg) (st : Away) → st.away ≡ true → IsSettled cfg st
unfolding IsSettled set_away
away-IsSettled cfg st h =
    elim (Bool-cases (not (st.connected == 2) || is_none none && is_none cfg.awaymsg)) [
      | inl e ↦ rw e refl
      | inr e ↦ elim (Bool-cases st.custom) [
        | inl f ↦ rw (e, f, h) refl
        | inr f ↦ elim (Bool-cases (st.clients == 0)) [
          | inl g ↦ rw (e, f, g, h) refl
          | inr g ↦ rw (e, f, g) refl
        ]
      ]
    ]

early-IsSettled :
    (cfg : AwayCfg) (msg : Option Text) (st : Away)
    → (not (st.connected == 2) || is_none msg && is_none cfg.awaymsg) ≡ true
    → IsSettled cfg st
unfolding IsSettled set_away
early-IsSettled cfg msg st h =
    let early : (not (st.connected == 2) || is_none none && is_none cfg.awaymsg) ≡ true =
      elim (Bool-cases (st.connected == 2)) [
        | inl e ↦ elim (Bool-cases (is_none cfg.awaymsg)) [
          | inl f ↦ rw (e, f) refl
          | inr f ↦ absurd (ground arith)
        ]
        | inr e ↦ rw e refl
      ] in
    rw early refl

busy-IsSettled :
    (cfg : AwayCfg) (msg : Option Text) (st : Away)
    → st.custom ≡ false
    → (is_none msg && not (st.clients == 0)) ≡ true
    → IsSettled cfg st
unfolding IsSettled set_away
busy-IsSettled cfg msg st f h =
    let busy : (st.clients == 0) ≡ false = ground arith in
    elim (Bool-cases (not (st.connected == 2) || is_none none && is_none cfg.awaymsg)) [
      | inl e ↦ rw e refl
      | inr e ↦ rw (e, f, busy) refl
    ]

if_IsSettled :
    (cfg : AwayCfg) (b : Bool) (x y : Away)
    → (b ≡ true → IsSettled cfg x)
    → (b ≡ false → IsSettled cfg y)
    → IsSettled cfg (if b then x else y)
if_IsSettled cfg true x y hx hy = hx refl
if_IsSettled cfg false x y hx hy = hy refl

set_away-IsSettled :
    (cfg : AwayCfg) (msg : Option Text) (st : Away) → IsSettled cfg (set_away cfg msg st)
unfolding set_away mark_away
set_away-IsSettled cfg msg st =
    if_IsSettled cfg (not (st.connected == 2) || is_none msg && is_none cfg.awaymsg) st _
      (early-IsSettled cfg msg st)
      (λ e.
        if_IsSettled cfg st.custom _ _
          (λ f.
            if_IsSettled cfg st.away st (mark_away (printed st.awaymsg) st) (away-IsSettled cfg st)
              (λ g. away-IsSettled cfg (mark_away (printed st.awaymsg) st) refl))
          (λ f.
            if_IsSettled cfg (is_none msg && not (st.clients == 0)) st _
              (busy-IsSettled cfg msg st f)
              (λ g.
                if_IsSettled cfg (given msg st).away (given msg st)
                  (mark_away (printed (either (given msg st).awaymsg cfg.awaymsg)) (given msg st))
                  (away-IsSettled cfg (given msg st))
                  (λ h.
                    away-IsSettled cfg
                      (mark_away (printed (either (given msg st).awaymsg cfg.awaymsg))
                        (given msg st))
                      refl))))

-- Nothing is sent a second time: once miau was marked away or could not be, another call without a
-- message changes nothing.
pub set_away-settled :
    (cfg : AwayCfg) (msg : Option Text) (st : Away)
    → set_away cfg none (set_away cfg msg st) ≡ set_away cfg msg st
unfolding IsSettled
set_away-settled cfg msg st = set_away-IsSettled cfg msg st
