-- ===== src/Protocol/Host.antt =====
-- What the query code takes from outside: the objects of the JavaScript heap, the BigDecimal module
-- of the effect package, and the Unicode tables behind `toLowerCase`, `<` and `String` on values.
use Prim.Native.Nat.{Ordering}
use view_server.Prelude.{ℕ, String, Bool, Option, List}
use view_server.Protocol.Value.{Number, BigInt, Value}

pub record Host : Type 1 where
  pub Decimal : Type 0
  -- `BigDecimal.isBigDecimal` of an object, with the decimal that it is
  pub decimal_of : ℕ → Option Decimal
  -- `Array.isArray` of an object, with its elements
  pub elements_of : ℕ → Option (List Value)
  pub from_bigint : BigInt → Decimal
  pub from_number : Number → Option Decimal
  pub from_string : String → Option Decimal
  -- `BigDecimal.equals` and `BigDecimal.Order`
  pub equals : Decimal → Decimal → Bool
  pub order : Decimal → Decimal → Ordering
  -- `s.toLowerCase()`
  pub lower : String → String
  -- `s < t`
  pub text_lt : String → String → Bool
  pub includes : String → String → Bool
  pub starts_with : String → String → Bool
  -- `String(value)`
  pub to_string : Value → String
