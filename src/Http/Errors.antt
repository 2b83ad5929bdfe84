-- ===== src/Http/Errors.antt =====
-- `AppError` of src/infrastructure/error/mod.rs and the answer to each error. The errors of the crates
-- config and redis are their texts.
use ara_notification_service.Common.{
  ℕ, ◌≡◌, refl, Bool, true, if◌then◌else◌, ltb, ◌⊎◌, inl, inr, ◌++◌, Str, codes,
}

pub data AppError : Type 0 where
  config auth validation not_found internal redis rate_limit_exceeded connection_limit_exceeded
        queue timeout cluster_error :
      Str → AppError

-- `error.to_string()`.
unfoldable pub error_display : AppError → Str
error_display (config e) = codes "Configuration error: " ++ e
error_display (auth e) = codes "Authentication error: " ++ e
error_display (validation e) = codes "Validation error: " ++ e
error_display (not_found e) = codes "Not found: " ++ e
error_display (internal e) = codes "Internal error: " ++ e
error_display (redis e) = codes "Redis error: " ++ e
error_display (rate_limit_exceeded e) = codes "Rate limit exceeded: " ++ e
error_display (connection_limit_exceeded e) = codes "Connection limit exceeded: " ++ e
error_display (queue e) = codes "Queue error: " ++ e
error_display (timeout e) = codes "Timeout: " ++ e
error_display (cluster_error e) = codes "Cluster error: " ++ e

-- An answer: the status, the code and the message for the client.
pub record Answer : Type 0 where
  pub status : ℕ
  pub code : Str
  pub message : Str

abbrev answer : ℕ → Str → Str → Answer
answer status code message = record { status = status; code = code; message = message }

-- What a client is told of an inner error, in production or not.
abbrev shown : Bool → Str → Str → Str
shown is_production general detail = if is_production then general else detail

unfoldable pub into_response : Bool → AppError → Answer
into_response p (config e) =
    answer 500 (codes "CONFIG_ERROR") (shown p (codes "Configuration error") e)
into_response p (auth e) = answer 401 (codes "UNAUTHORIZED") e
into_response p (validation e) = answer 400 (codes "VALIDATION_ERROR") e
into_response p (not_found e) = answer 404 (codes "NOT_FOUND") e
into_response p (internal e) =
    answer 500 (codes "INTERNAL_ERROR") (shown p (codes "Internal server error") e)
into_response p (redis e) =
    answer 500 (codes "REDIS_ERROR") (shown p (codes "Service temporarily unavailable") e)
into_response p (rate_limit_exceeded e) = answer 429 (codes "RATE_LIMIT_EXCEEDED") e
into_response p (connection_limit_exceeded e) = answer 429 (codes "CONNECTION_LIMIT_EXCEEDED") e
into_response p (queue e) =
    answer 503 (codes "QUEUE_ERROR") (shown p (codes "Message queue error") e)
into_response p (timeout e) = answer 504 (codes "TIMEOUT") e
into_response p (cluster_error e) =
    answer 503 (codes "CLUSTER_ERROR") (shown p (codes "Cluster communication error") e)

-- The same error with another text.
abbrev pub with_text : Str → AppError → AppError
with_text s (config e) = config s
with_text s (auth e) = auth s
with_text s (validation e) = validation s
with_text s (not_found e) = not_found s
with_text s (internal e) = internal s
with_text s (redis e) = redis s
with_text s (rate_limit_exceeded e) = rate_limit_exceeded s
with_text s (connection_limit_exceeded e) = connection_limit_exceeded s
with_text s (queue e) = queue s
with_text s (timeout e) = timeout s
with_text s (cluster_error e) = cluster_error s

-- In production, an error that the server is to blame for (a status of 500 or more, but the time-outs
-- of 504) is answered alike whatever its text: nothing of the text reaches the client.
pub into_response-hides :
    (s : Str) (e : AppError)
    → ((into_response true e).status ≡ 504)
      ⊎ (ltb (into_response true e).status 500 ≡ true)
      ⊎ (into_response true (with_text s e) ≡ into_response true e)
unfolding into_response
into_response-hides s (config e) = inr (inr refl)
into_response-hides s (auth e) = inr (inl refl)
into_response-hides s (validation e) = inr (inl refl)
into_response-hides s (not_found e) = inr (inl refl)
into_response-hides s (internal e) = inr (inr refl)
into_response-hides s (redis e) = inr (inr refl)
into_response-hides s (rate_limit_exceeded e) = inr (inl refl)
into_response-hides s (connection_limit_exceeded e) = inr (inl refl)
into_response-hides s (queue e) = inr (inr refl)
into_response-hides s (timeout e) = inl refl
into_response-hides s (cluster_error e) = inr (inr refl)
