-- ===== src/Automode/Groups.antt =====
-- The messages that give the modes: three modes at a time, none lost.
use miau.Prelude.{
  ℕ, ◌+◌, ◌-◌, ◌≤◌, ◌≡◌, refl, append-nil, append_assoc, inl, inr, List, [], ◌∷◌, ◌++◌, Text, All,
  map, if◌then◌else◌, length, arith, Bool-cases,
}
use miau.Irc.{Flood}
use miau.Automode.{AutomodeType, ModeChannel, commit, mode_message, automode_do, is_one, write_all}

-- The queue in groups of three, the last of them shorter perhaps.
unfoldable pub groups : List AutomodeType → List (List AutomodeType)
groups [] = []
groups (a ∷ []) = (a ∷ []) ∷ []
groups (a ∷ b ∷ []) = (a ∷ b ∷ []) ∷ []
groups (a ∷ b ∷ c ∷ queue) = (a ∷ b ∷ c ∷ []) ∷ groups queue

unfoldable pub joined : List (List AutomodeType) → List AutomodeType
joined [] = []
joined (g ∷ gs) = g ++ joined gs

unfoldable pub nicks_of : List AutomodeType → Text
nicks_of [] = []
nicks_of (e ∷ g) = b' ' ∷ (e.nick ++ nicks_of g)

unfoldable pub message_of : Text → List AutomodeType → Text
unfolding nicks_of
message_of name g = mode_message name (map (λ (e : AutomodeType). e.mode) g) (nicks_of g)

commit-message_of :
    (name : Text) (queue : List AutomodeType)
    → commit name [] [] queue ≡ map (message_of name) (groups queue)
unfolding commit groups message_of nicks_of
commit-message_of name [] = refl
commit-message_of name (a ∷ []) = rw (append-nil a.nick) refl
commit-message_of name (a ∷ b ∷ []) = rw (append-nil b.nick) refl
commit-message_of name (a ∷ b ∷ c ∷ queue) =
    simp (append_assoc a.nick, append-nil c.nick, commit-message_of name queue) refl

groups-joined : (queue : List AutomodeType) → joined (groups queue) ≡ queue
unfolding groups joined
groups-joined [] = refl
groups-joined (a ∷ []) = refl
groups-joined (a ∷ b ∷ []) = refl
groups-joined (a ∷ b ∷ c ∷ queue) = rw (groups-joined queue) refl

groups-short : (queue : List AutomodeType) → All (λ g. length g ≤ 3) (groups queue)
unfolding groups
groups-short [] = tt
groups-short (a ∷ []) = (omega arith, tt)
groups-short (a ∷ b ∷ []) = (omega arith, tt)
groups-short (a ∷ b ∷ c ∷ queue) = (omega arith, groups-short queue)

-- The messages for a queue are one for each of its groups, which have three modes at most and make up
-- the queue, in order.
pub commit-groups :
    (name : Text) (queue : List AutomodeType)
    → (commit name [] [] queue ≡ map (message_of name) (groups queue))
      × (joined (groups queue) ≡ queue)
      × All (λ g. length g ≤ 3) (groups queue)
commit-groups name queue = (commit-message_of name queue, groups-joined queue, groups-short queue)

-- The modes that wait in all channels.
unfoldable pub waiting : List ModeChannel → ℕ
waiting [] = 0
waiting (c ∷ channels) = length c.mode_queue + waiting channels

-- The queues are empty where miau is an operator, and as before elsewhere.
unfoldable pub Given : List ModeChannel → List ModeChannel → Type 0
Given [] [] = Unit
Given [] (d ∷ ds) = ⊥
Given (c ∷ cs) [] = ⊥
Given (c ∷ cs) (d ∷ ds) =
    (d ≡ (if is_one c.oper then record c { mode_queue = [] } else c)) × Given cs ds

-- After the walk over the channels no mode waits where miau is an operator, the other channels are as
-- before, and the number of waiting modes is right again, if it was before: with `k` that are counted
-- elsewhere.
pub automode_do-Given :
    (channels : List ModeChannel) (k n : ℕ) (st : Flood)
    → n ≡ k + waiting channels
    → Given channels (automode_do channels n st).0
      × ((automode_do channels n st).1 ≡ k + waiting (automode_do channels n st).0)
unfolding automode_do Given waiting
automode_do-Given [] k n st h = (tt, h)
automode_do-Given (c ∷ channels) k n st h = elim (Bool-cases (is_one c.oper)) [
  | inl e ↦
      let (given, count) =
        automode_do-Given channels k (n - length c.mode_queue)
          (write_all st (commit c.name [] [] c.mode_queue)) (omega (arith, h)) in
      simp (e) ((refl, given), omega (arith, count))
  | inr e ↦
      let (given, count) =
        automode_do-Given channels (k + length c.mode_queue) n st (omega (arith, h)) in
      simp (e) ((refl, given), omega (arith, count))
]
