-- ===== src/Api/Xevents.antt =====
-- `xevents_setup`, and scripts/setup_xevents.py, which renders the statements.
use sqlum_ai.Common.{List, [], ◌∷◌, if◌then◌else◌, not, ◌||◌}
use sqlum_ai.Common.Text.{Text, codes, text_eq, nonempty, lower}
use sqlum_ai.Api.Store.{Answer, ok, http_error}

abbrev pub ring_target : Text
ring_target = codes "ADD TARGET package0.ring_buffer(SET max_memory=4096)"

abbrev pub file_target : Text
file_target =
    codes
      "ADD TARGET package0.event_file(SET filename='sqlumai_capture', max_file_size=(100), max_rollover_files=(5))"

-- `render_xevents_sql`, line by line
unfoldable pub render_xevents_sql : Text → List Text
unfolding text_eq
render_xevents_sql mode =
    codes "IF EXISTS (SELECT * FROM sys.server_event_sessions WHERE name = 'sqlumai_capture')"
    ∷ codes "BEGIN"
    ∷ codes "  ALTER EVENT SESSION [sqlumai_capture] ON SERVER STATE = STOP;"
    ∷ codes "  DROP EVENT SESSION [sqlumai_capture] ON SERVER;"
    ∷ codes "END"
    ∷ codes ""
    ∷ codes "CREATE EVENT SESSION [sqlumai_capture] ON SERVER"
    ∷ codes "ADD EVENT sqlserver.rpc_completed("
    ∷ codes
        "    ACTION(sqlserver.client_app_name, sqlserver.client_hostname, sqlserver.server_principal_name)"
    ∷ codes "),"
    ∷ codes "ADD EVENT sqlserver.sql_batch_completed("
    ∷ codes
        "    ACTION(sqlserver.client_app_name, sqlserver.client_hostname, sqlserver.server_principal_name)"
    ∷ codes ")"
    ∷ (if text_eq mode (codes "ring") then ring_target else file_target)
    ∷ codes
        "WITH (MAX_MEMORY=4096 KB, EVENT_RETENTION_MODE=ALLOW_SINGLE_EVENT_LOSS, MAX_DISPATCH_LATENCY=5 SECONDS, STARTUP_STATE=OFF);"
    ∷ codes ""
    ∷ codes "ALTER EVENT SESSION [sqlumai_capture] ON SERVER STATE = START;"
    ∷ []

-- `(mode or "ring").lower()`
unfoldable pub mode_of : Text → Text
unfolding lower
mode_of mode = lower (if nonempty mode then mode else codes "ring")

unfoldable pub xevents_setup : Text → Answer (List Text)
unfolding mode_of text_eq render_xevents_sql
xevents_setup mode =
    let m = mode_of mode in
    if not (text_eq m (codes "ring") || text_eq m (codes "file"))
    then http_error 400
    else ok (render_xevents_sql (if text_eq m (codes "file") then codes "file" else codes "ring"))
