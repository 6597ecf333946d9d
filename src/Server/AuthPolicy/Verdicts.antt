-- ===== src/Server/AuthPolicy/Verdicts.antt =====
-- Whom the policy lets through, and with what error it turns others away.
use view_server.Prelude.{
  String, ◌≡◌, refl, ap, ◌∙◌, ◌≢◌, ◌⊎◌, inl, inr, Bool, true, false, Option, none, some, Bool-cases,
}
use mathlib.Core.Path.{subst}
use view_server.Protocol.Texts.{equal_texts, same_text}
use view_server.Server.AuthPolicy.{
  AuthOperation, Transport, rpc, testing, internal, AuthorizationContext, unauthorized,
  unauthorized_system_topic, callback_error, Exit, succeed, fail, view_server_health_topic,
  is_internal, is_reserved_topic, is_health_topic, Callback, Decision, decide, authorize_query,
  can_read_health, read_payload, can_read_topic, can_publish_topic,
}

internal_cases :
    (transport : Transport)
    → (is_internal transport ≡ true) × (transport ≡ internal)
      ⊎ (is_internal transport ≡ false) × (transport ≢ internal)
internal_cases internal = inl (refl, refl)
internal_cases rpc = inr (refl, λ e. cc)
internal_cases testing = inr (refl, λ e. cc)

module _ {E P : Type 0} (callback : Callback E P) (operation : AuthOperation) where
  -- The answer of the callback, with its meaning.
  abbrev pub Answered : String → Exit E Bool → Decision E → Type 0
  Answered topic answer result =
      (result ≡ succeed tt) × (answer ≡ succeed true)
      ⊎ (result ≡ fail (unauthorized topic operation)) × (answer ≡ succeed false)
      ⊎ (error : E) × (result ≡ fail (callback_error error)) × (answer ≡ fail error)

  decide-Answered :
      (topic : String) (answer : Exit E Bool)
      → Answered topic answer (decide topic operation answer)
  decide-Answered topic (succeed true) = inl (refl, refl)
  decide-Answered topic (succeed false) = inr (inl (refl, refl))
  decide-Answered topic (fail error) = inr (inr (error, refl, refl))

  -- The verdict on a read.
  abbrev pub ReadVerdict : String → Option P → Decision E → Type 0
  ReadVerdict topic payload result =
      (result ≡ fail (unauthorized_system_topic topic operation))
        × (is_reserved_topic topic ≡ true)
        × (topic ≢ view_server_health_topic)
      ⊎ ((is_reserved_topic topic ≡ false) ⊎ (topic ≡ view_server_health_topic))
        × ((payload ≡ none) × (result ≡ succeed tt)
            ⊎ (p : P) × (payload ≡ some p)
              × Answered topic
                  (callback
                    (record { topic = topic; operation = operation; payload = p; transport = rpc }))
                  result)

  health_text : (topic : String) → is_health_topic topic ≡ true → topic ≡ view_server_health_topic
  unfolding is_health_topic
  health_text topic h = equal_texts topic view_server_health_topic h

  not_health : (topic : String) → is_health_topic topic ≡ false → topic ≢ view_server_health_topic
  unfolding is_health_topic
  not_health topic h e =
      let test : is_health_topic topic ≡ true =
        ap is_health_topic e ∙ same_text view_server_health_topic in
      cc

  payload_verdict :
      (topic : String) (payload : Option P)
      → let result = read_payload callback topic operation payload in
        (payload ≡ none) × (result ≡ succeed tt)
        ⊎ (p : P) × (payload ≡ some p)
          × Answered topic
              (callback
                (record { topic = topic; operation = operation; payload = p; transport = rpc }))
              result
  unfolding can_read_health authorize_query
  payload_verdict topic none = inl (refl, refl)
  payload_verdict topic (some p) = elim (Bool-cases (is_health_topic topic)) [
    | inl health ↦
        let at : String → AuthorizationContext P =
          λ t. record { topic = t; operation = operation; payload = p; transport = rpc } in
        inr (
          p,
          refl,
          rw health (
              subst
                (λ t. Answered topic (callback (at topic)) (decide t operation (callback (at t))))
                (health_text topic health) (decide-Answered topic (callback (at topic)))),
        )
    | inr other ↦ inr (p, refl, rw other (decide-Answered topic _))
  ]

  -- A read: a reserved topic but that of health is
  -- refused as a system topic, whatever the callback says. Another is let through without a payload;
  -- with one it is let through, refused, or failed as the callback, which is asked about this topic
  -- over rpc, says yes, no, or fails.
  pub can_read_topic-ReadVerdict :
      (topic : String) (payload : Option P)
      → ReadVerdict topic payload (can_read_topic callback topic operation payload)
  unfolding can_read_topic
  can_read_topic-ReadVerdict topic payload = elim (Bool-cases (is_reserved_topic topic)) [
    | inl reserved ↦ elim (Bool-cases (is_health_topic topic)) [
      | inl health ↦
          rw (reserved, health)
            (inr (inr (health_text topic health), payload_verdict topic payload))
      | inr other ↦ rw (reserved, other) (inl (refl, refl, not_health topic other))
    ]
    | inr public ↦ rw public (inr (inl refl, payload_verdict topic payload))
  ]

  -- The verdict on a publication.
  abbrev pub PublishVerdict : String → P → Transport → Decision E → Type 0
  PublishVerdict topic payload transport result =
      (result ≡ fail (unauthorized_system_topic topic operation))
        × (is_reserved_topic topic ≡ true)
        × (transport ≢ internal)
      ⊎ ((is_reserved_topic topic ≡ false) ⊎ (transport ≡ internal))
        × Answered topic
            (callback (record {
              topic = topic;
              operation = operation;
              payload = payload;
              transport = transport;
            }))
            result

  -- A publication on a reserved topic is refused as one on a system topic, whatever the callback says,
  -- unless it is internal. Any other is let through, refused, or failed as the callback, which is asked
  -- about this publication, says yes, no, or fails.
  pub can_publish_topic-PublishVerdict :
      (topic : String) (payload : P) (transport : Transport)
      → PublishVerdict topic payload transport
          (can_publish_topic callback topic operation payload transport)
  unfolding can_publish_topic
  can_publish_topic-PublishVerdict topic payload transport =
      elim (Bool-cases (is_reserved_topic topic)) [
        | inl reserved ↦ elim (internal_cases transport) [
          | inl (own, e) ↦ rw (reserved, own) (inr (inr e, decide-Answered topic _))
          | inr (foreign, n) ↦ rw (reserved, foreign) (inl (refl, refl, n))
        ]
        | inr public ↦ rw public (inr (inl refl, decide-Answered topic _))
      ]
