-- ===== src/Automode/Examples.antt =====
-- Runs of the queue of modes, and the theorems at concrete states.
use miau.Prelude.{◌+◌, ◌≡◌, refl, some, List, [], ◌∷◌, codes}
use miau.Prelude.Int.{pos}
use miau.Tools.{to_lower}
use miau.Common.{same_nocase}
use miau.Perm.{PermList, Ident}
use miau.Irc.{Flood}
use miau.Automode.{
  AutomodeType, ModeChannel, automode_lookup, automode_drop_channel, automode_do, commit, any_mode,
}
use miau.Automode.Queue.{Unique}
use miau.Automode.Groups.{waiting, Given, automode_do-Given}

abbrev op : AutomodeType
op = record { nick = codes "wnd"; mode = b'o' }

abbrev voice : AutomodeType
voice = record { nick = codes "wnd"; mode = b'v' }

abbrev queue : List AutomodeType
queue = op ∷ []

queue-Unique : Unique queue
unfolding Unique automode_lookup
queue-Unique = (refl, tt)

abbrev list : PermList
list = record { name = codes "v:*"; allowed = 1 } ∷ []

abbrev status : Ident
status = record { idhostname = codes "host"; goodhostname = 0 }

-- A mode that is dropped still counts: the number of waiting modes is kept apart from the queue.
dropped : automode_drop_channel queue (some (codes "WND")) any_mode ≡ []
unfolding automode_drop_channel same_nocase to_lower
dropped = refl

abbrev channels : List ModeChannel
channels = record { name = codes "#miau"; oper = pos 1; mode_queue = op ∷ voice ∷ [] } ∷ []

abbrev idle : Flood
idle = record { msgtimer = pos 5; msg_queue = []; sent = []; floodtime = 0 }

committed : commit (codes "#miau") [] [] (op ∷ voice ∷ []) ≡ codes "MODE #miau +ov wnd wnd" ∷ []
unfolding commit
committed = refl

automode_do-Given_example :
    Given channels (automode_do channels 2 idle).0
    × ((automode_do channels 2 idle).1 ≡ 0 + waiting (automode_do channels 2 idle).0)
unfolding waiting
automode_do-Given_example = automode_do-Given channels 0 2 idle refl
