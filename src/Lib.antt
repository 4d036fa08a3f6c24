-- ===== src/Lib.antt =====
-- SQLumAI: a proxy in front of a SQL Server that reads the TDS stream of its clients, decides by
-- rules on every statement, and logs, blocks or autocorrects it; the policy API beside it; and the scripts that
-- turn its logs into reports.
--
-- The parts, and how they work together. The proxy (src/proxy/tds_proxy.py) cuts what a client
-- sends into packets (src/tds/parser.py), puts batches and RPCs together, asks the policy engine
-- (src/policy/engine.py, its rules loaded by src/policy/loader.py) for a decision, records it in the
-- counters (src/metrics/store.py) and the log (src/metrics/decisions.py), and rewrites values by the
-- functions on SQL text (src/tds/sqlparse_simple.py, src/tds/rpc_parse.py), the normalizers
-- (agents/normalizers.py) and the payload builder (src/tds/rpc_build.py). The API (src/api.py) edits the
-- rules and reads the log; the scripts read the log and the traced statements (scripts/*.py).
--
-- - Common: Python's text, dicts, integers, decimals, dates and UUIDs, and the part of `re` in use, with a
--   matcher that backtracks in Python's order. The character classes are exact for code points below 256.
-- - Policy.Engine, Policy.Loader: PolicyEngine, load_rules. A float is kept as it is written.
-- - Metrics.Store, Metrics.Decisions: the counters file and the log as values, one function for each
--   operation; the locks make each operation one step. Metrics.Store.Bag is the abstract view of the counters,
--   a quotient that forgets the order of the keys and reads 0 under a key that is not there.
--   A decision of the log is a dict of texts, numbers and null; who reads it takes texts or null under
--   `rule_id` and `action`, as the proxy writes them, and anything under `ts`.
-- - Tds.Parser, Tds.Utf16, Tds.Sql, Tds.RpcParse: packets, codecs and SQL text, function by function
--   under the names of the source. Bytes are numbers.
-- - Tds.RpcBuild, Tds.ToBytes, Tds.RpcTypes: build_rpc_payload, one function for each SQL type, and
--   load_param_types. A payload that the source does not build (it raises) is `none`.
-- - Proxy: `_pipe` for the client's direction, as one function for each branch over explicit state:
--   Settings (the environment variables), Conn (`counter`), World (metrics and log) and Session (a
--   round). An exception that the round catches is the value `raised`. Proxy.Repack is the branch of
--   RPC_REPACK_BUILDER. Proxy.Server is the whole proxy: a step relation over its connections and the files
--   that they share; Proxy.Evolves is what a step can do to these files.
-- - Normalizers, Runtime.Secrets: agents/normalizers.py and src/runtime/secrets.py.
-- - Api: the handlers on rules, proposed rules, their difference and promotion, the test of an
--   event, the suggestion of a rule, the dry run, the metrics as text, the insights, the tables of the pages
--   and the XEvents setup; an HTTPException is an answer.
-- - Scripts.Validate, Replay, DryrunReport, Profiles, DailyReport, Insights, ReadXevents: validate_rules.py (with
--   each class of rules that it can import, or its own tests), replay_dryrun.py,
--   generate_dryrun_report.py, aggregate_profiles.py, generate_daily_report.py with
--   llm_summarize_profiles.py, llm_insights.py, and the two readers of XEvents. A report is the list of its lines.
-- - Tests: runs on examples, and the theorems of the list at concrete inputs.
--
-- Bounds and fuel. `iter_packets`, the search for parameters and the printing of numbers run on fuel that
-- their input gives, which is enough since each round takes eight bytes, two characters or one digit. The packet
-- loop of the proxy takes its fuel as an argument and answers `none` where it runs out: its source can
-- fail to end. Lengths in headers keep their 16 bits. Python's limit of 4300 digits on int() is kept.
--
-- Parameters. `datetime.fromisoformat` is an argument (a field of Settings): its grammar depends on the
-- version of Python. The clock of the log is a field of Settings too. The class of rules that pydantic makes is an
-- argument of RuleClass.pydantic in Scripts.Validate; the `BaseModel` that src/api.py has in its place is modelled.
--
-- Not modelled: sockets, asyncio and TLS (I/O); the histograms and the Prometheus registry (calls of a
-- package); the fixed markup of the pages of HTML; the drift of the profiles (ratios of floats);
-- the scheduler and the entry points (they start tasks); the calls of a language model and of HTTP
-- services; the parsing of XML, whose result is the model's input; the benchmark and
-- scripts/archive.
pub mod Common
pub mod Policy
pub mod Metrics
pub mod Tds
pub mod Proxy
pub mod Normalizers
pub mod Api
pub mod Runtime
pub mod Scripts
pub mod Tests
