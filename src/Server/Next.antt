-- ===== src/Server/Next.antt =====
-- The loop of `server_change` over the servers ends, and at the right one.
use mathlib.Core.Bool.{or-true}
use miau.Prelude.{
  ℕ, zero, suc, ◌+◌, ◌-◌, ◌<◌, ◌≤◌, ◌≡◌, ◌≢◌, ◌⊎◌, inl, inr, refl, true, false, ◌||◌, some, List,
  arith, Bool-cases, ◌==◌, ==_refl, length, ℕ_discrete, ==_ne, lt→ltb, dec_lt, ◌∙◌,
}
use miau.Parser.{ServerType}
use miau.Server.{works, next_of, next_server}

-- The server that the loop ends at: it works, or is the one where the loop began, and then none does
-- that lies between the first and the last.
abbrev pub Chosen : List ServerType → ℕ → ℕ → Type 0
Chosen servers start i =
    (1 ≤ i)
    × (i < length servers)
    × ((works servers i ≡ true)
        ⊎ ((i ≡ start) × ((k : ℕ) → 1 ≤ k → k < length servers → works servers k ≡ false)))

-- The servers from `a` on, up to `b`, do not work.
abbrev pub Idle : List ServerType → ℕ → ℕ → Type 0
Idle servers a b = (k : ℕ) → a ≤ k → k ≤ b → works servers k ≡ false

Idle-suc :
    (servers : List ServerType) (a b : ℕ)
    → Idle servers a b
    → works servers (suc b) ≡ false
    → Idle servers a (suc b)
Idle-suc servers a b idle off k lo hi = elim (ℕ_discrete k (suc b)) [
  | yes e ↦ rw e off
  | no ne ↦ idle k lo (omega arith)
]

next-suc : (servers : List ServerType) (i : ℕ) → suc i < length servers → next_of servers i ≡ suc i
unfolding next_of
next-suc servers i lt = ground arith

next-wraps : (servers : List ServerType) (i : ℕ) → length servers ≤ suc i → next_of servers i ≡ 1
unfolding next_of
next-wraps servers i le = ground arith

-- A round of the loop that ends it, and one that does not.
round_ends :
    (servers : List ServerType) (start fuel i j : ℕ)
    → next_of servers i ≡ j
    → j < length servers
    → (works servers j || j == start) ≡ true
    → next_server (suc fuel) servers start i ≡ some j
unfolding next_server
round_ends servers start fuel i j e lt ends = rw (e, lt→ltb j (length servers) lt, ends) refl

round_on :
    (servers : List ServerType) (start fuel i j : ℕ)
    → next_of servers i ≡ j
    → j < length servers
    → works servers j ≡ false
    → j ≢ start
    → next_server (suc fuel) servers start i ≡ next_server fuel servers start j
unfolding next_server
round_on servers start fuel i j e lt off ne =
    rw (e, lt→ltb j (length servers) lt, off, ==_ne j start ne) refl

works_ends :
    (servers : List ServerType) (start j : ℕ)
    → works servers j ≡ true
    → (works servers j || j == start) ≡ true
works_ends servers start j e = rw e refl

start_ends :
    (servers : List ServerType) (start j : ℕ) → j ≡ start → (works servers j || j == start) ≡ true
start_ends servers start j e = rw (==_refl j start e, or-true (works servers j)) refl

abbrev pub Ends : List ServerType → ℕ → ℕ → ℕ → Type 0
Ends servers start fuel i =
    (j : ℕ) × (next_server fuel servers start i ≡ some j) × Chosen servers start j

false-true : false ≢ true
false-true e = ground arith

-- The next round, where what follows a server that does not work is known to end.
step :
    (servers : List ServerType) (start fuel i j : ℕ)
    → next_of servers i ≡ j
    → 1 ≤ j
    → j < length servers
    → (j ≡ start
        → works servers j ≡ false
        → (k : ℕ) → 1 ≤ k
        → k < length servers
        → works servers k ≡ false)
    → (works servers j ≡ false → j ≢ start → Ends servers start fuel j)
    → Ends servers start (suc fuel) i
step servers start fuel i j e one lt all on = elim (Bool-cases (works servers j)) [
  | inl w ↦
      (j, round_ends servers start fuel i j e lt (works_ends servers start j w), (one, lt, inl w))
  | inr off ↦ elim (ℕ_discrete j start) [
    | yes s ↦ (
      j,
      round_ends servers start fuel i j e lt (start_ends servers start j s),
      (one, lt, inr (s, all s off)),
    )
    | no ne ↦
        let (r, f, chosen) = on off ne in
        (r, round_on servers start fuel i j e lt off ne ∙ f, chosen)
  ]
]

module _ (servers : List ServerType) (start : ℕ) where
  -- Below the start, after the end of the list was passed.
  below_start :
      (fuel i : ℕ)
      → start < length servers
      → i < start
      → start ≤ i + fuel
      → Idle servers 1 i
      → Idle servers (suc start) (length servers - 1)
      → Ends servers start fuel i
  below_start zero i inside lt enough low high = absurd (omega arith)
  below_start (suc fuel) i inside lt enough low high =
      step servers start fuel i (suc i) (next-suc servers i (omega arith)) (omega arith)
        (omega arith) (λ s off k one in_list. whole s off k one in_list)
        (λ off ne.
          below_start fuel (suc i) inside (omega arith) (omega arith) (Idle-suc servers 1 i low off)
            high)
    where
      whole :
          suc i ≡ start
          → works servers (suc i) ≡ false
          → (k : ℕ) → 1 ≤ k
          → k < length servers
          → works servers k ≡ false
      whole s off k one in_list = elim (dec_lt i k) [
        | no ge ↦ low k one (omega arith)
        | yes gt ↦ elim (ℕ_discrete k (suc i)) [
          | yes e ↦ rw e off
          | no ne ↦ high k (omega arith) (omega arith)
        ]
      ]

  -- From the start on, up to the end of the list.
  pub above_start :
      (fuel i : ℕ)
      → 1 ≤ start
      → start ≤ i
      → i < length servers
      → length servers - i + start ≤ fuel
      → Idle servers (suc start) i
      → Ends servers start fuel i
  above_start zero i one le inside enough idle = absurd (omega arith)
  above_start (suc fuel) i one le inside enough idle = elim (dec_lt (suc i) (length servers)) [
    | yes more ↦
        step servers start fuel i (suc i) (next-suc servers i more) (omega arith) more
          (λ s off k one in_list. absurd (omega arith))
          (λ off ne.
            above_start fuel (suc i) one (omega arith) more (omega arith)
              (Idle-suc servers (suc start) i idle off))
    | no last ↦
        step servers start fuel i 1 (next-wraps servers i (omega arith)) (omega arith) (omega arith)
          (λ s off k one in_list. first_only s off k one in_list (omega arith))
          (λ off ne.
            below_start fuel 1 (omega arith) (omega arith) (omega arith)
              (λ k lo hi. rw (between k lo hi) off) (λ k lo hi. idle k lo (omega arith)))
  ]
    where
      between : (k : ℕ) → 1 ≤ k → k ≤ 1 → k ≡ 1
      between k lo hi = omega arith

      first_only :
          1 ≡ start
          → works servers 1 ≡ false
          → (k : ℕ) → 1 ≤ k
          → k < length servers
          → length servers ≤ suc i
          → works servers k ≡ false
      first_only s off k one in_list last = elim (ℕ_discrete k 1) [
        | yes e ↦ rw e off
        | no ne ↦ idle k (omega arith) (omega arith)
      ]
