-- ===== src/Tests/Auth.antt =====
-- The policy with a callback that lets one topic through.
use text.Mathlib.Text.{◌==◌ as str_eq}
use view_server.Prelude.{ℕ, ◌≡◌, refl, some}
use view_server.Server.AuthPolicy.{
  query, publish, rpc, succeed, fail, unauthorized_system_topic, Callback, can_read_topic,
  can_publish_topic,
}
use view_server.Server.AuthPolicy.Verdicts.{
  ReadVerdict, PublishVerdict, can_read_topic-ReadVerdict, can_publish_topic-PublishVerdict,
}

abbrev only_orders : Callback ℕ ℕ
only_orders context = succeed (str_eq context.topic "orders")

can_read_topic-ReadVerdict_example :
    ReadVerdict only_orders query "orders"
      (some 1)
      (can_read_topic only_orders "orders" query (some 1))
can_read_topic-ReadVerdict_example = can_read_topic-ReadVerdict only_orders query "orders" (some 1)

can_publish_topic-PublishVerdict_example :
    PublishVerdict only_orders publish "__orders" 1 rpc
      (can_publish_topic only_orders "__orders" publish 1 rpc)
can_publish_topic-PublishVerdict_example =
    can_publish_topic-PublishVerdict only_orders publish "__orders" 1 rpc

private_publication :
    can_publish_topic only_orders "__orders" publish 1 rpc
    ≡ fail (unauthorized_system_topic "__orders" publish)
unfolding can_publish_topic
private_publication = refl
