-- ===== src/Server/AuthPolicy.antt =====
-- server/auth-policy.ts: who may read and publish which topic (`defaultAuthPolicy`). The callbacks of
-- the configuration are parameters; one may fail with an error of its own.
pub mod Verdicts
use text.Mathlib.Text.{◌==◌ as str_eq, starts_with}
use view_server.Prelude.{
  ◌-◌, ◌/◌, String, Bool, true, false, ◌&&◌, not, Option, none, some, ◌==◌, if◌then◌else◌,
}

pub data AuthOperation : Type 0 where
  query subscribe publish delta_publish delete : AuthOperation

pub data Transport : Type 0 where
  rpc testing internal : Transport

pub record AuthorizationContext (P : Type 0) : Type 0 where
  pub topic : String
  pub operation : AuthOperation
  pub payload : P
  pub transport : Transport

-- The two errors of this module, by topic and operation, and those of the callbacks.
pub data AuthError (E : Type 0) : Type 0 where
  unauthorized : String → AuthOperation → AuthError E
  unauthorized_system_topic : String → AuthOperation → AuthError E
  callback_error : E → AuthError E

-- How an effect ends.
pub data Exit (E A : Type 0) : Type 0 where
  succeed : A → Exit E A
  fail : E → Exit E A

abbrev pub view_server_health_topic : String
view_server_health_topic = "__view_server_health"

abbrev pub reserved_topic_prefix : String
reserved_topic_prefix = "__"

abbrev pub is_internal : Transport → Bool
is_internal internal = true
is_internal _ = false

unfoldable pub is_reserved_topic : String → Bool
is_reserved_topic topic = starts_with topic reserved_topic_prefix

unfoldable pub is_health_topic : String → Bool
is_health_topic topic = str_eq topic view_server_health_topic

-- What a callback answers, and what the policy does.
abbrev pub Callback : Type 0 → Type 0 → Type 0
Callback E P = AuthorizationContext P → Exit E Bool

abbrev pub Decision : Type 0 → Type 0
Decision E = Exit (AuthError E) Unit

module _ {E : Type 0} where
  -- `allowed ? Effect.void : Effect.fail(unauthorized(topic, operation))`, after the callback
  abbrev pub decide : String → AuthOperation → Exit E Bool → Decision E
  decide topic operation (succeed true) = succeed tt
  decide topic operation (succeed false) = fail (unauthorized topic operation)
  decide topic operation (fail error) = fail (callback_error error)

module _ {E P : Type 0} where
  unfoldable pub authorize_query : Callback E P → String → AuthOperation → P → Decision E
  authorize_query callback topic operation payload = decide topic operation (
      callback
        (record { topic = topic; operation = operation; payload = payload; transport = rpc }))

  unfoldable pub can_read_health : Callback E P → AuthOperation → P → Decision E
  unfolding authorize_query
  can_read_health callback operation payload =
      authorize_query callback view_server_health_topic operation payload

  -- What is left to do where there is a payload.
  abbrev pub read_payload : Callback E P → String → AuthOperation → Option P → Decision E
  read_payload callback topic operation none = succeed tt
  read_payload callback topic operation (some payload) =
      if is_health_topic topic
      then can_read_health callback operation payload
      else authorize_query callback topic operation payload

  unfoldable pub can_read_topic : Callback E P → String → AuthOperation → Option P → Decision E
  unfolding is_reserved_topic is_health_topic can_read_health
  can_read_topic callback topic operation payload =
      if is_reserved_topic topic && not (is_health_topic topic)
      then fail (unauthorized_system_topic topic operation)
      else read_payload callback topic operation payload

  unfoldable pub can_subscribe : Callback E P → String → Option P → Decision E
  unfolding can_read_topic
  can_subscribe callback topic payload = can_read_topic callback topic subscribe payload

  unfoldable pub can_publish_topic :
      Callback E P → String → AuthOperation → P → Transport → Decision E
  unfolding is_reserved_topic
  can_publish_topic callback topic operation payload transport =
      if is_reserved_topic topic && not (is_internal transport)
      then fail (unauthorized_system_topic topic operation)
      else decide topic operation (
          callback (record {
            topic = topic;
            operation = operation;
            payload = payload;
            transport = transport;
          }))
