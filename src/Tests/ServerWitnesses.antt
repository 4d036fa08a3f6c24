-- ===== src/Tests/ServerWitnesses.antt =====
-- The theorem on the connections of src/proxy/tds_proxy.py at a concrete run.
use sqlum_ai.Common.{◌≡◌, refl, ◌<◌, true, false, some, [], ◌∷◌, All, length, arith}
use sqlum_ai.Common.Text.{codes}
use sqlum_ai.Tds.Utf16.{Bytes}
use sqlum_ai.Proxy.State.{Conn}
use sqlum_ai.Proxy.Pipe.{tds_round}
use sqlum_ai.Proxy.Loop.{tds_loop}
use sqlum_ai.Proxy.Evolves.{Grown}
use sqlum_ai.Proxy.Server.{new_conn, answer, Runs, opens, reads, answers, closes, stays, turns}
use sqlum_ai.Proxy.Server.Reached.{AllWait, Runs-Grown}
use sqlum_ai.Tests.ProxyWitnesses.{settings, new_world}

-- The first three bytes of a packet.
abbrev three_bytes : Bytes
three_bytes = 0x12 ∷ 1 ∷ 0 ∷ []

abbrev waiting_conn : Conn
waiting_conn = record { sql_chunks = []; rpc_chunks = []; c2s_buf = three_bytes; sent = 0 }

three_bytes_wait :
    tds_round (settings (codes "log")) 1 false three_bytes new_conn new_world
    ≡ some (record { conn = waiting_conn; world = new_world; written = [] })
unfolding tds_round tds_loop
three_bytes_wait = refl

-- Two clients connect, the first sends three bytes, the second is answered too late, and leaves.
two_clients :
    Runs
      (settings (codes "log"))
      (record { conns = []; world = new_world })
      (record { conns = waiting_conn ∷ []; world = answer true new_world })
two_clients =
    turns
      (turns
        (turns (turns (turns stays (opens _)) (opens _)) (
          reads [] (new_conn ∷ []) new_conn new_world 1 false three_bytes _
            (omega arith, (omega arith, (omega arith, tt))) three_bytes_wait))
        (answers _ true))
      (closes (waiting_conn ∷ []) [] new_conn (answer true new_world))

Runs-Grown_example :
    Grown new_world (answer true new_world)
    × AllWait (waiting_conn ∷ [])
    × All (λ c. length c.c2s_buf < 65536) (waiting_conn ∷ [])
Runs-Grown_example =
    Runs-Grown (settings (codes "log")) new_world
      (record { conns = waiting_conn ∷ []; world = answer true new_world }) two_clients
