-- ===== src/Protocol/Delta.antt =====
-- protocol/query.ts: the operations of a delta.
use view_server.Prelude.{Option}
use view_server.Protocol.Value.{Number, Row}
use view_server.Protocol.StableKey.{StableKey}

-- `upsert row key index`, `patch key changes index` and `remove key`.
pub data DeltaOperation : Type 0 where
  upsert : Row → Option StableKey → Option Number → DeltaOperation
  patch : StableKey → Row → Option Number → DeltaOperation
  remove : StableKey → DeltaOperation
