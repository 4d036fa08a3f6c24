-- ===== src/Tds/RpcParse/Found.antt =====
-- What is found in the text of an RPC: each name with the value that stands behind it, and none passed over.
use sqlum_ai.Common.Text.{Text}
