-- ===== src/Tests/Syncs.antt =====
-- A sync between two nodes in one process: src/crdt.js.
use objy.Common.{ℕ, ◌≡◌, refl, arith, Option, none, some}
use objy.Common.Text.{text}
use objy.Common.Dict.{get}
use objy.Node.{Node}
use objy.Node.Scopes.{Scope}
use objy.Node.Sync.{Session, cursor_of, sync_peer}
use objy.Node.Sync.Serving.{IsServing}
use objy.Node.Sync.Progress.{Ends, sync_peer-Ends}
use objy.Tests.Nodes.{one_shard, idle, logging, logging-IsLogged, scope}

-- no handler of a truncated log
abbrev no_restore : Option Scope → ℕ → Node ℕ → Option ℕ × Node ℕ
no_restore where_to after n = (none, n)

abbrev fresh : Session ℕ
fresh = record { local = record idle { id = text "n2" }; remote = logging; total = 0 }

logging-IsServing : IsServing logging
logging-IsServing = record { logged = logging-IsLogged; trims = tt }

fresh_cursor : cursor_of (some scope) fresh ≡ 0
unfolding cursor_of get
fresh_cursor = refl

sync_peer-Ends_example :
    Ends one_shard no_restore (some scope) 2 (sync_peer one_shard no_restore 3 1 (some scope) fresh)
sync_peer-Ends_example =
    sync_peer-Ends one_shard no_restore 3 1 (some scope) fresh logging-IsServing
      (omega (arith, fresh_cursor))
