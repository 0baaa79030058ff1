-- ===== src/Channels/Find.antt =====
-- The search for a channel: what it finds, and when it finds nothing.
use miau.Prelude.{
  ◌≡◌, ◌⊎◌, inl, inr, true, false, Option, some, none, List, [], ◌∷◌, ◌++◌, Text, All, arith,
  Bool-cases, refl, ℕ, ◌==◌, take, length, head0,
}
use mathlib.Core.Path.{subst}
use miau.Common.{same_nocase}
use miau.Channels.{ChannelType, find_in, channel_simplify_name}

abbrev pub Matches : Text → Text → ChannelType → Type 0
Matches name sname c = (same_nocase c.name name ≡ true) ⊎ (same_nocase c.simple_name sname ≡ true)

some_same : (d c : ChannelType) → some d ≡ some c → d ≡ c
some_same d c e = cc

carry {ℓ} : (P : ChannelType → Type ℓ) (d c : ChannelType) → some d ≡ some c → P d → P c
carry P d c e q = subst P (some_same d c e) q

pub none-some : (c : ChannelType) → none ≡ some c → ⊥
none-some c e = ground arith

module _ (name sname : Text) where
  pub find_in-some :
      (b : ChannelType) (cs : List ChannelType) → find_in name sname (some b) cs ≡ none → ⊥
  unfolding find_in
  find_in-some b [] h = ground arith
  find_in-some b (c ∷ cs) h = ground (arith, find_in-some b cs, find_in-some c cs)

  -- A list with no match before a list.
  pub find_in-append :
      (cs ds : List ChannelType)
      → find_in name sname none cs ≡ none
      → find_in name sname none (cs ++ ds) ≡ find_in name sname none ds
  unfolding find_in
  find_in-append [] ds h = refl
  find_in-append (c ∷ cs) ds h = ground (arith, find_in-append cs ds, find_in-some c cs)

  pub find_in-one :
      (c : ChannelType) → Matches name sname c → find_in name sname none (c ∷ []) ≡ some c
  unfolding find_in
  find_in-one c m = ground arith

  -- What is found matches, and has each property that all channels of the list have.
  pub find_in-All {ℓ} :
      (P : ChannelType → Type ℓ) (cs : List ChannelType) (b : Option ChannelType) (c : ChannelType)
      → All P cs
      → find_in name sname b cs ≡ some c
      → (b ≡ some c) ⊎ (P c × Matches name sname c)
  unfolding find_in
  find_in-All P [] b c ps h = inl h
  find_in-All P (d ∷ cs) b c (p, ps) h = elim (Bool-cases (same_nocase d.name name)) [
    | inl e ↦ inr (carry (λ x. P x × Matches name sname x) d c (rw (e, find_in) at h) (p, inl e))
    | inr e ↦ elim (Bool-cases (same_nocase d.simple_name sname)) [
      | inl f ↦ elim (find_in-All P cs (some d) c ps (rw (e, f, find_in) at h)) [
        | inl here ↦ inr (carry (λ x. P x × Matches name sname x) d c here (p, inr f))
        | inr there ↦ inr there
      ]
      | inr f ↦ find_in-All P cs b c ps (rw (e, f, find_in) at h)
    ]
  ]

  -- The same for the whole search.
  pub find_in-found {ℓ} :
      (P : ChannelType → Type ℓ) (cs : List ChannelType) (c : ChannelType)
      → All P cs
      → find_in name sname none cs ≡ some c
      → P c × Matches name sname c
  find_in-found P cs c ps h = elim (find_in-All P cs none c ps h) [
    | inl missed ↦ absurd (none-some c missed)
    | inr held ↦ held
  ]

take_all : (t : Text) → take (length t) t ≡ t
take_all [] = refl
take_all (c ∷ t) = rw (take_all t) refl

-- The simple name of a safe channel is its real name without the five characters behind the
-- exclamation mark, and the name of any other channel is its own simple name.
pub channel_simplify_name_lem :
    (a b c d e : ℕ) (rest name : Text)
    → (head0 name == b'!') ≡ false
    → (channel_simplify_name (b'!' ∷ a ∷ b ∷ c ∷ d ∷ e ∷ rest) ≡ b'!' ∷ rest)
      × (channel_simplify_name name ≡ name)
unfolding channel_simplify_name
channel_simplify_name_lem a b c d e rest name plain = (ground (arith, take_all rest), rw plain refl)
