-- ===== src/Webhook.antt =====
-- webhook.go: the signature of a body, and the delivery of one event. HMAC-SHA256 (`prf`), json.Marshal of the payload,
-- url.Parse and the HTTP client are parameters; the goroutine around the deliveries is not modelled.
use agentboard.Text.Hex.{encode_hex, AreBytes, encode_hex-injective, head_tail}
use agentboard.Prelude.{
  ℕ, ◌≡◌, ◌↔◌, refl, ap, Bool, true, false, not, ◌&&◌, ◌||◌, Option, none, some, [], ◌∷◌, ◌++◌, ltb,
  if◌then◌else◌, is_empty, Str, runes, str_eq, str_eq_iff,
}
use agentboard.Password.{Bytes}
use agentboard.Model.Data.{Task}
use agentboard.Board.Types.{Error, Reply, EventType, Event, Board, Env, store_failed}
use agentboard.Board.Queries.{task, TaskDetail}

pub record WebhookPayload : Type 0 where
  pub event : Event
  pub task : Option Task

pub record Webhook : Type 0 where
  pub url : Str
  pub secret : Str

-- The signature is absent where there is no secret.
pub record Request : Type 0 where
  pub url : Str
  pub event : EventType
  pub body : Bytes
  pub signature : Option Str

unfoldable pub sign_webhook_body : (Str → Bytes → Bytes) → Str → Bytes → Str
unfolding encode_hex
sign_webhook_body prf secret body = runes "sha256=" ++ encode_hex (prf secret body)

unfoldable pub verify_webhook_signature : (Str → Bytes → Bytes) → Str → Bytes → Str → Bool
unfolding sign_webhook_body str_eq
verify_webhook_signature prf secret body header = str_eq (sign_webhook_body prf secret body) header

-- `parse` gives the scheme and the host.
unfoldable validate_webhook_url : (Str → Option (Str × Str)) → Str → Option Error
unfolding str_eq
validate_webhook_url parse raw = elim (parse raw) [
  | none ↦ some store_failed
  | some (scheme, host) ↦
      if (not (str_eq scheme (runes "http")) && not (str_eq scheme (runes "https")))
        || is_empty host
      then some store_failed
      else none
]

abbrev task_found : Reply TaskDetail → Option Task
task_found r = elim r.error [
  | some e ↦ none
  | none ↦ elim r.value [ none ↦ none | some d ↦ some d.task ]
]

-- The task that the event concerns, as the board has it now.
unfoldable pub payload_for : Event → Env → Board → Board × WebhookPayload
unfolding task
payload_for ev env b =
    let (next, reply) = task ev.task_id env b in
    if is_empty ev.task_id
    then (b, record { event = ev; task = none })
    else (next, record { event = ev; task = task_found reply })

unfoldable pub request_for :
    (Str → Bytes → Bytes) → (WebhookPayload → Bytes) → Webhook → WebhookPayload → Request
unfolding sign_webhook_body
request_for prf marshal w p = record {
  url = w.url;
  event = p.event.type;
  body = marshal p;
  signature =
      (if is_empty w.secret then none else some (sign_webhook_body prf w.secret (marshal p)));
}

-- What client.Do makes of a request: an error, or the status of the answer.
unfoldable pub deliver :
    (Str → Bytes → Bytes)
    → (WebhookPayload → Bytes)
    → (Request → Option ℕ)
    → Webhook
    → Event
    → Env
    → Board
    → Board × Option Error
unfolding payload_for request_for
deliver prf marshal send w ev env b =
    let (next, p) = payload_for ev env b in
    elim (send (request_for prf marshal w p)) [
      | none ↦ (next, some store_failed)
      | some status ↦
          if ltb status 200 || ltb 299 status then (next, some store_failed) else (next, none)
    ]

drop_prefix : (p xs ys : Str) → p ++ xs ≡ p ++ ys → xs ≡ ys
drop_prefix [] xs ys e = e
drop_prefix (c ∷ p) xs ys e = drop_prefix p xs ys (head_tail e).1

-- A receiver with the same secret accepts each signed delivery, and accepts the signature for another body, or under
-- another secret, only if HMAC-SHA256, whose results are bytes, gives both the same result.
pub delivery_verifies :
    (prf : Str → Bytes → Bytes) (marshal : WebhookPayload → Bytes) (w : Webhook)
    (p : WebhookPayload)
    → ((key : Str) (msg : Bytes) → AreBytes (prf key msg))
    → is_empty w.secret ≡ false
    → (signature : Str) × ((request_for prf marshal w p).signature ≡ some signature)
      × (verify_webhook_signature prf w.secret (request_for prf marshal w p).body signature ≡ true)
      × ((secret : Str) (body : Bytes)
          → (verify_webhook_signature prf secret body signature ≡ true)
            ↔ (prf secret body ≡ prf w.secret (request_for prf marshal w p).body))
unfolding request_for verify_webhook_signature sign_webhook_body
delivery_verifies prf marshal w p sized signed =
    let body = marshal p in
    let signature = sign_webhook_body prf w.secret body in
    (
      signature,
      rw signed refl,
      (str_eq_iff signature signature).1 refl,
      λ secret other. (
        λ h.
            encode_hex-injective (prf secret other) (prf w.secret body) (sized secret other)
              (sized w.secret body)
              (drop_prefix (runes "sha256=") (encode_hex (prf secret other))
                (encode_hex (prf w.secret body))
                ((str_eq_iff (sign_webhook_body prf secret other) signature).0 h)),
        λ e.
            (str_eq_iff (sign_webhook_body prf secret other) signature).1
              (ap (λ mac. runes "sha256=" ++ encode_hex mac) e),
      ),
    )
