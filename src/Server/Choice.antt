-- ===== src/Server/Choice.antt =====
-- `server_change` ends with a server that works, unless there is none behind the fallback one.
use miau.Prelude.{ℕ, ◌<◌, ◌≤◌, ◌≡◌, ◌≢◌, ◌⊎◌, true, false, Option, some, List, length}
use miau.Parser.{ServerType}
use miau.Server.{ServerCfg, Change, going, gave_up, works}

-- Every server but the fallback one works.
abbrev pub AllWork : List ServerType → Type 0
AllWork servers = (k : ℕ) → 1 ≤ k → k < length servers → works servers k ≡ true

-- No server but the fallback one does.
abbrev pub NoneWork : List ServerType → Type 0
NoneWork servers = (k : ℕ) → 1 ≤ k → k < length servers → works servers k ≡ false

-- The servers afterwards: as they were marked, or, where none of them worked and miau is never to give up,
-- as many servers, all of which work.
abbrev pub Kept : ServerCfg → List ServerType → List ServerType → Type 0
Kept cfg marked servers =
    (servers ≡ marked)
    ⊎ ((cfg.nevergiveup ≡ 1) × NoneWork marked × (length servers ≡ length marked) × AllWork servers)

-- What the change leads to, with the servers as they are marked first: a server of the list that works,
-- or the end where no server but the fallback one works.
abbrev pub Result : ServerCfg → List ServerType → Change → Type 0
Result cfg marked (going st) =
    (1 ≤ st.current)
    × (st.current < length st.servers)
    × (works st.servers st.current ≡ true)
    × Kept cfg marked st.servers
Result cfg marked (gave_up st) = (cfg.nevergiveup ≢ 1) × NoneWork marked × (st.servers ≡ marked)

abbrev pub Reaches : ServerCfg → List ServerType → Option Change → Type 0
Reaches cfg marked change = (r : Change) × (change ≡ some r) × Result cfg marked r
