-- ===== src/Tests/ProxyWitnesses.antt =====
-- The theorems on src/proxy/tds_proxy.py at concrete settings and packets.
use sqlum_ai.Common.{
  ℕ, ◌+◌, ◌≡◌, ◌↔◌, ◌≢◌, refl, inl, true, false, none, some, List, [], ◌∷◌, ◌++◌, arith, length,
  if◌then◌else◌,
}
use sqlum_ai.Common.Text.{Text, codes, text_eq, contains, lower, last_part}
use sqlum_ai.Common.Dict
use sqlum_ai.Tds.Sql.{extract_table_and_columns}
use sqlum_ai.Tds.Sql.Multirow.{extract_multirow_values, reconstruct_multirow_insert}
use sqlum_ai.Common.Text.Laws.{text_eq_iff}
use sqlum_ai.Metrics.Store.{missing, read}
use sqlum_ai.Tds.RpcTypes.{TypesFile}
use sqlum_ai.Tests.Samples.{sample_rules}
use sqlum_ai.Policy.Engine.{is_at, decide, new_engine, get_rule}
use sqlum_ai.Policy.Loader.{load_entries, not_object}
use sqlum_ai.Tds.Utf16.{Bytes, decode}
use sqlum_ai.Tds.Parser.{Packet, parse_header}
use sqlum_ai.Tds.Parser.Packets.{frames}
use sqlum_ai.Proxy.State.{enforces, Settings, World, Session, went, packed, is_eom}
use sqlum_ai.Tds.Parser.{extract_sqlbatch_text}
use sqlum_ai.Tds.Utf16.{encode_ignore}
use sqlum_ai.Proxy.State.{count}
use sqlum_ai.Proxy.Batch.{recorded}
use sqlum_ai.Proxy.Batch.Judged.{decision_on, held_back, handle_batch_blocked}
use sqlum_ai.Normalizers.{normalize_date, normalize_phone_se}
use sqlum_ai.Proxy.Suggested.{suggested}
use sqlum_ai.Proxy.Loop.{waits, handle_packet, tds_loop}
use sqlum_ai.Proxy.Loop.Ends.{handle_all, loop_incomplete, tds_loop-frames, tds_loop_zero}
use sqlum_ai.Proxy.Loop.Cut.{tds_loop-cut}
use sqlum_ai.Proxy.Batch.{
  autocorrect, autocorrect_rows, autocorrect_cell, rows_fit, replaced, handle_batch, judge_batch,
  autocorrect_row, below_threshold, with_sql_chunks,
}
use sqlum_ai.Proxy.Batch.Judged.{handle_batch_log}
use sqlum_ai.Proxy.Batch.Thresholds.{IsDropped, judge_batch-IsDropped}
use sqlum_ai.Proxy.Batch.Corrected.{RowOf, autocorrect_row-RowOf}
use sqlum_ai.Proxy.Batch.Ungated.{below_threshold-loaded}
use sqlum_ai.Proxy.Rpc.{handle_rpc, rewrite_params}
use sqlum_ai.Proxy.Rpc.Rewritten.{Rewritten, rewrite_params-Rewritten, handle_rpc_log}
use sqlum_ai.Proxy.Pipe.{Round, tds_round}
use sqlum_ai.Proxy.Pipe.Written.{Wrote, tds_round-Wrote}
use sqlum_ai.Proxy.Packed.{written_header}

-- An engine of two rules, and the normalizers.
abbrev pub settings : Text → Settings
settings enforcement = record {
  engine = new_engine sample_rules (some (codes "prod"));
  suggest_normalizations = suggested;
  repack_builder = false;
  param_types = TypesFile.missing;
  fromisoformat = λ s. none;
  clock = λ n. codes "2025-01-01";
  enforcement = enforcement;
  max_rewrite_bytes = 131072;
  inplace = true;
  truncate = false;
}

abbrev pub new_world : World
new_world = record { metrics = missing; log = none }

abbrev new_session : Session
new_session = record {
  conn = record { sql_chunks = []; rpc_chunks = []; c2s_buf = []; sent = 0 };
  world = new_world;
  out = [];
}

abbrev login : Packet
login = record { typ = 0x12; status = 1; length = 9; spid = 0; packet = 1; payload = 7 ∷ [] }

abbrev two_logins : List (Packet × ℕ)
two_logins = (login, 0) ∷ (login, 0) ∷ []

tds_loop-frames_example :
    tds_loop (settings (codes "log")) 3 (frames two_logins ++ 1 ∷ []) new_session
    ≡ some (handle_all (settings (codes "log")) (1 ∷ []) two_logins new_session)
tds_loop-frames_example =
    tds_loop-frames (settings (codes "log")) 3 two_logins (1 ∷ []) new_session
      (record { fits = refl }, (record { fits = refl }, tt)) (inl (omega arith)) (omega arith)

abbrev empty_login : Bytes
empty_login = 0x12 ∷ 1 ∷ 0 ∷ 0 ∷ 0 ∷ 0 ∷ 1 ∷ 0 ∷ []

tds_loop_zero_example : tds_loop (settings (codes "log")) 100 empty_login new_session ≡ none
tds_loop_zero_example =
    tds_loop_zero (settings (codes "log")) 100 empty_login (written_header 0x12 0 0) new_session
      (unfold parse_header in refl) refl (omega arith) (omega arith)

abbrev first_read : Bytes
first_read = 0x12 ∷ 1 ∷ 0 ∷ []

abbrev second_read : Bytes
second_read = 9 ∷ 0 ∷ 0 ∷ 1 ∷ 0 ∷ 7 ∷ []

reads_end :
    tds_loop (settings (codes "log")) 2 (first_read ++ second_read) new_session
    ≡ some (handle_all (settings (codes "log")) [] ((login, 0) ∷ []) new_session)
reads_end =
    tds_loop-frames (settings (codes "log")) 2 ((login, 0) ∷ []) [] new_session
      (record { fits = refl }, tt) (inl (omega arith)) (omega arith)

tds_loop-cut_example :
    tds_loop (settings (codes "log")) (1 + 2) (first_read ++ second_read) new_session
    ≡ some (handle_all (settings (codes "log")) [] ((login, 0) ∷ []) new_session)
tds_loop-cut_example =
    tds_loop-cut (settings (codes "log")) 1 2 first_read second_read first_read new_session
      new_session (handle_all (settings (codes "log")) [] ((login, 0) ∷ []) new_session)
      (loop_incomplete (settings (codes "log")) 0 first_read new_session (inl (omega arith)))
      reads_end

drops_by_rule :
    (decision_on (settings (codes "enforce")) (codes "drop table t")).rule_id ≡ some (codes "d")
unfolding decide new_engine text_eq contains lower
drops_by_rule = refl

judge_batch-IsDropped_example :
    ((judge_batch (settings (codes "enforce")) 51 (codes "drop table t") new_world).1 ≡ none)
    ↔ IsDropped (settings (codes "enforce")) (codes "d") (codes "drop table t") new_world
judge_batch-IsDropped_example =
    judge_batch-IsDropped (settings (codes "enforce")) 51 (codes "d") (codes "drop table t")
      new_world (unfold read in tt) drops_by_rule refl

logs_only : (settings (codes "log")).enforcement ≢ codes "enforce"
unfolding text_eq
logs_only e = cc ((text_eq_iff (codes "log") (codes "enforce")).1 e)

handle_batch_log_example :
    handle_batch (settings (codes "log")) 51 1 (0x41 ∷ 0 ∷ []) new_session
    ≡ went (record (with_sql_chunks [] new_session) {
      world = (judge_batch (settings (codes "log")) 51 (codes "A") new_world).0;
      out = packed 1 51 (0x41 ∷ 0 ∷ []);
    })
handle_batch_log_example =
    handle_batch_log (settings (codes "log")) 51 1 (0x41 ∷ 0 ∷ []) (codes "A") new_session logs_only
      (unfold is_eom in refl) (ground arith) (λ e. cc) (unfold decode in refl)

autocorrect_row-RowOf_example :
    RowOf
      (settings (codes "enforce"))
      (codes "insert into T (Phone) values ('0')")
      (codes "T")
      (codes "Phone" ∷ [])
      (codes "0" ∷ [])
      (autocorrect_row
        (settings (codes "enforce"))
        51
        (codes "insert into T (Phone) values ('0')")
        (codes "T")
        (codes "Phone" ∷ [])
        (codes "0" ∷ [])
        new_world).1.0
autocorrect_row-RowOf_example =
    autocorrect_row-RowOf (settings (codes "enforce")) 51
      (codes "insert into T (Phone) values ('0')") (codes "T") (codes "Phone" ∷ []) (codes "0" ∷ [])
      new_world refl

below_threshold-loaded_example :
    below_threshold
      (get_rule (new_engine (load_entries (not_object ∷ [])) none) (some (codes "a")))
      []
    ≡ false
below_threshold-loaded_example = below_threshold-loaded (not_object ∷ []) none (some (codes "a")) []

rewrite_params-Rewritten_example :
    Rewritten
      (settings (codes "enforce"))
      ((codes "p", codes "A") ∷ [])
      (0x41 ∷ 0 ∷ [])
      (rewrite_params
        (settings (codes "enforce"))
        51
        ((codes "p", codes "A") ∷ [])
        new_world
        (0x41 ∷ 0 ∷ [])
        false).1.0
    × (length
          (rewrite_params
            (settings (codes "enforce"))
            51
            ((codes "p", codes "A") ∷ [])
            new_world
            (0x41 ∷ 0 ∷ [])
            false).1.0
        ≡ 2)
rewrite_params-Rewritten_example =
    rewrite_params-Rewritten (settings (codes "enforce")) 51 ((codes "p", codes "A") ∷ []) new_world
      (0x41 ∷ 0 ∷ [])

-- the last packet of an RPC whose first has been kept
abbrev kept_session : Session
kept_session = record new_session {
  conn = record { sql_chunks = []; rpc_chunks = (5 ∷ []) ∷ []; c2s_buf = []; sent = 0 };
}

handle_rpc_log_example :
    (s' : Session) × (handle_rpc
        (settings (codes "log"))
        51
        1
        (3 ∷ 1 ∷ 0 ∷ 9 ∷ 0 ∷ 51 ∷ 1 ∷ 0 ∷ 6 ∷ [])
        (6 ∷ [])
        kept_session
      ≡ went s')
    × (s'.out ≡ (if is_eom 1 then 3 ∷ 1 ∷ 0 ∷ 9 ∷ 0 ∷ 51 ∷ 1 ∷ 0 ∷ 6 ∷ [] else []))
    × (s'.conn.rpc_chunks ≡ (if is_eom 1 then [] else (5 ∷ []) ∷ (6 ∷ []) ∷ []))
handle_rpc_log_example =
    handle_rpc_log (settings (codes "log")) 51 1 (3 ∷ 1 ∷ 0 ∷ 9 ∷ 0 ∷ 51 ∷ 1 ∷ 0 ∷ 6 ∷ []) (6 ∷ [])
      kept_session logs_only

abbrev passed_session : Session
passed_session = record new_session { out = first_read ++ second_read }

reads_pass :
    tds_loop (settings (codes "log")) 2 (first_read ++ second_read) new_session
    ≡ some (waits [] passed_session)
unfolding handle_all handle_packet
reads_pass = reads_end

tds_round-Wrote_example :
    (r : Round) × (tds_round
        (settings (codes "log"))
        2
        false
        (first_read ++ second_read)
        new_session.conn
        new_world
      ≡ some r)
    × Wrote (settings (codes "log")) passed_session [] r
tds_round-Wrote_example =
    tds_round-Wrote (settings (codes "log")) 2 false (first_read ++ second_read) [] new_session.conn
      new_world passed_session reads_pass

dropped : (judge_batch (settings (codes "enforce")) 51 (codes "drop table t") new_world).1 ≡ none
unfolding judge_batch decide new_engine text_eq contains lower enforces below_threshold get_rule
    Dict.get Dict.put
dropped = refl

corrected :
    (judge_batch
      (settings (codes "enforce"))
      51
      (codes "insert into T (Phone) values ('070 12')")
      new_world).1
    ≡ some (codes "insert into T (Phone) values ('+467012')")
unfolding judge_batch decide new_engine text_eq contains lower autocorrect rows_fit
    extract_multirow_values extract_table_and_columns autocorrect_rows autocorrect_cell is_at
    last_part enforces replaced reconstruct_multirow_insert suggested normalize_date
    normalize_phone_se
corrected = refl

abbrev drop_bytes : Bytes
drop_bytes = encode_ignore (codes "drop table t")

drop_text : extract_sqlbatch_text (drop_bytes ∷ []) ≡ some (codes "drop table t")
unfolding extract_sqlbatch_text encode_ignore
drop_text = refl

drop_decision :
    (decision_on (settings (codes "enforce")) (codes "drop table t")).action ≡ codes "block"
unfolding decide new_engine text_eq contains lower
drop_decision = refl

drop_free : held_back (settings (codes "enforce")) 51 (codes "drop table t") new_world ≡ false
unfolding decide new_engine text_eq contains lower below_threshold get_rule Dict.get Dict.put
drop_free = refl

handle_batch_blocked_example :
    handle_batch (settings (codes "enforce")) 51 1 drop_bytes new_session
    ≡ went (record (with_sql_chunks [] new_session) {
      world = count (codes "blocks") (
          recorded
            (settings (codes "enforce"))
            51
            (decision_on (settings (codes "enforce")) (codes "drop table t"))
            (codes "drop table t")
            new_world);
    })
handle_batch_blocked_example =
    handle_batch_blocked (settings (codes "enforce")) 51 1 drop_bytes (codes "drop table t")
      new_session (unfold is_eom in refl) drop_text (λ e. cc) drop_decision refl drop_free
