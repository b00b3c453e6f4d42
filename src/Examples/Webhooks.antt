-- ===== src/Examples/Webhooks.antt =====
-- A signed delivery, with a keyed function that has one byte.
use agentboard.Prelude.{
  ◌+◌, ◌%◌, ◌≡◌, ◌↔◌, refl, true, none, some, [], ◌∷◌, Str, runes, length, arith,
}
use agentboard.Password.{Bytes}
use agentboard.Board.Types.{EventType}
use agentboard.Text.Hex.{AreBytes}
use agentboard.Webhook.{
  Webhook, WebhookPayload, request_for, verify_webhook_signature, delivery_verifies,
}

abbrev byte_prf : Str → Bytes → Bytes
byte_prf key msg = (length key + length msg) % 256 ∷ []

byte_prf-AreBytes : (key : Str) (msg : Bytes) → AreBytes (byte_prf key msg)
byte_prf-AreBytes key msg = (omega arith, tt)

abbrev hook : Webhook
hook = record { url = runes "https://example.org/hook"; secret = runes "key" }

abbrev payload : WebhookPayload
payload = record { event = record { type = EventType.save; task_id = []; at = 10 }; task = none }

abbrev body_of : WebhookPayload → Bytes
body_of p = runes "{}"

delivery_verifies_example :
    (signature : Str) × ((request_for byte_prf body_of hook payload).signature ≡ some signature)
    × (verify_webhook_signature byte_prf hook.secret
          (request_for byte_prf body_of hook payload).body
          signature
        ≡ true)
    × ((secret : Str) (body : Bytes)
        → (verify_webhook_signature byte_prf secret body signature ≡ true) ↔ (
            byte_prf secret body
            ≡ byte_prf hook.secret (request_for byte_prf body_of hook payload).body))
delivery_verifies_example = delivery_verifies byte_prf body_of hook payload byte_prf-AreBytes refl
