-- ===== src/Automode/Queue.antt =====
-- No nick waits twice for one mode, and it waits only for a mode that the list permits.
use miau.Prelude.{
  ℕ, zero, suc, ◌+◌, ◌≡◌, refl, inl, inr, false, ◌&&◌, Option, some, none, List, [], ◌∷◌, ◌++◌,
  Text, ◌==◌, length, arith, Bool-cases, Option-cases, length-append,
}
use miau.Common.{same_nocase}
use miau.Common.Laws.{same_nocase_sym}
use miau.Perm.{PermList, Ident, is_perm}
use miau.Automode.{AutomodeType, automode_lookup, queue_mode, automode_queue, mask_of, and_then}

-- No entry has another behind it for the same nick and mode.
unfoldable pub Unique : List AutomodeType → Type 0
Unique [] = Unit
Unique (e ∷ queue) = (automode_lookup e.nick queue e.mode ≡ false) × Unique queue

lookup-append :
    (nick : Text) (mode : ℕ) (queue : List AutomodeType) (e : AutomodeType)
    → automode_lookup nick queue mode ≡ false
    → (same_nocase nick e.nick && e.mode == mode) ≡ false
    → automode_lookup nick (queue ++ e ∷ []) mode ≡ false
unfolding automode_lookup
lookup-append nick mode [] e h k = ground arith
lookup-append nick mode (d ∷ queue) e h k = ground (arith, lookup-append nick mode queue e)

-- An entry that is not found differs from every entry of the queue.
lookup-differs :
    (nick : Text) (mode : ℕ) (d : AutomodeType) (queue : List AutomodeType)
    → automode_lookup nick (d ∷ queue) mode ≡ false
    → ((same_nocase d.nick nick && mode == d.mode) ≡ false)
      × (automode_lookup nick queue mode ≡ false)
unfolding automode_lookup
lookup-differs nick mode d queue h = (rw (same_nocase_sym d.nick nick) (ground arith), ground arith)

append-Unique :
    (nick : Text) (mode : ℕ) (queue : List AutomodeType)
    → Unique queue
    → automode_lookup nick queue mode ≡ false
    → Unique (queue ++ record { nick = nick; mode = mode } ∷ [])
unfolding Unique automode_lookup
append-Unique nick mode [] u h = (refl, tt)
append-Unique nick mode (d ∷ queue) (a, u) h =
    let (differs, h') = lookup-differs nick mode d queue h in
    (
      lookup-append d.nick d.mode queue (record { nick = nick; mode = mode }) a differs,
      append-Unique nick mode queue u h',
    )

-- The result of a turn, if there is one.
unfoldable pub Good : ℕ → Option (List AutomodeType × ℕ) → Type 0
Good k none = Unit
Good k (some r) = Unique r.0 × (r.1 ≡ k + length r.0)

queue_mode-Good :
    (status : Ident) (list : PermList) (nick hostname channel : Text) (mode k : ℕ)
    (queue : List AutomodeType) (n : ℕ)
    → Unique queue
    → n ≡ k + length queue
    → Good k (queue_mode status list nick hostname channel mode (queue, n))
unfolding queue_mode Good
queue_mode-Good status list nick hostname channel mode k queue n u e =
    elim (Option-cases (is_perm status list (some (mask_of mode nick hostname channel)))) [
      | inl f ↦ rw (f, queue_mode) tt
      | inr (zero, f) ↦ rw (f, queue_mode) (u, e)
      | inr (suc m, f) ↦ elim (Bool-cases (automode_lookup nick queue mode)) [
        | inl g ↦ rw (f, g, queue_mode) (u, e)
        | inr g ↦
            rw (f, g, queue_mode)
              (
                append-Unique nick mode queue u g,
                omega (arith, e, length-append queue (record { nick = nick; mode = mode } ∷ [])),
              )
      ]
    ]

and_then-Good :
    (k : ℕ) (r : Option (List AutomodeType × ℕ))
    (f : List AutomodeType × ℕ → Option (List AutomodeType × ℕ))
    → Good k r
    → ((queue : List AutomodeType) (n : ℕ)
        → Unique queue
        → n ≡ k + length queue
        → Good k (f (queue, n)))
    → Good k (and_then r f)
unfolding Good
and_then-Good k none f g h = tt
and_then-Good k (some (queue, n)) f (u, e) h = h queue n u e

-- After a nick was looked up for both modes, no nick waits twice for one mode, and the number of
-- waiting modes has gone up by what the queue grew, if both held before: with `k` modes that wait in
-- other channels.
pub automode_queue-Good :
    (status : Ident) (list : PermList) (nick hostname channel : Text) (k : ℕ)
    (queue : List AutomodeType) (n : ℕ)
    → Unique queue
    → n ≡ k + length queue
    → Good k (automode_queue status list nick hostname channel (queue, n))
unfolding automode_queue
automode_queue-Good status list nick hostname channel k queue n u e =
    and_then-Good k (queue_mode status list nick hostname channel b'o' (queue, n)) _
      (queue_mode-Good status list nick hostname channel b'o' k queue n u e)
      (λ queue' n'. queue_mode-Good status list nick hostname channel b'v' k queue' n')
