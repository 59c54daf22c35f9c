-- ===== src/Domain/Events.antt =====
-- src/domain/events.rs and src/domain/ids.rs. An identifier is a text.
use Prim.Native.String.{String}

pub data TradeSide : Type 0 where
  buy sell : TradeSide

abbrev pub TokenId : Type 0
TokenId = String

abbrev pub ConditionId : Type 0
ConditionId = String

abbrev pub MarketId : Type 0
MarketId = String
