-- ===== src/Relay/Guards.antt =====
-- backend/src/middleware/auth.ts and backend/src/middleware/csrf.ts: the guards before a route. What
-- Node gives is a parameter: the bytes of a text, the comparison in constant time, which throws on
-- buffers of different lengths, and the origin of a URL, which throws on a text that is none.
use zkvote.Prelude.{
  same_text, ℕ, String, Bool, true, false, not, ◌||◌, Option, none, some, List, [], ◌∷◌, ◌++◌,
  Result, ok, err, ◌==◌, str_eq, if◌then◌else◌, length, take, drop, replicate, any,
}
use zkvote.Hex.{Text}
use zkvote.Validation.{starts_with}
use zkvote.Relay.{Config}

-- The request goes on, or is answered, or an error is thrown.
pub data Verdict : Type 0 where
  next : Verdict
  answer : ℕ → String → Verdict
  throws : String → Verdict

-- An empty header is falsy.
abbrev pub truthy : Option Text → Option Text
truthy none = none
truthy (some []) = none
truthy (some (c ∷ s)) = some (c ∷ s)

-- `a || b`
abbrev pub or_else : Option Text → Option Text → Option Text
or_else (some s) b = some s
or_else none b = b

abbrev pub bearer : Text
bearer = b'B' ∷ b'e' ∷ b'a' ∷ b'r' ∷ b'e' ∷ b'r' ∷ b' ' ∷ []

pub record Headers : Type 0 where
  pub x_relayer_auth : Option Text
  pub authorization : Option Text
  pub origin : Option Text
  pub referer : Option Text

unfoldable pub without_bearer : Option Text → Option Text
without_bearer none = none
without_bearer (some header) = some (if starts_with header bearer then drop 7 header else header)

unfoldable pub extract_auth_token : Headers → Option Text
extract_auth_token headers =
    without_bearer (or_else (truthy headers.x_relayer_auth) headers.authorization)

module _ (buffer_from : Text → List ℕ) (timing_safe_equal : List ℕ → List ℕ → Result Bool) where
  -- The result of the comparison with the padded buffer is not used.
  abbrev pub ignored : Result Bool → Result Bool
  ignored (ok b) = ok false
  ignored (err e) = err e

  unfoldable pub safe_compare : Text → Text → Result Bool
  safe_compare a b =
      let buf_a = buffer_from a in
      let buf_b = buffer_from b in
      if not (length buf_a == length buf_b)
      then ignored
          (timing_safe_equal buf_a (take (length buf_a) (buf_b ++ replicate (length buf_a) 0)))
      else timing_safe_equal buf_a buf_b

  abbrev pub compared : Result Bool → Verdict
  compared (ok true) = next
  compared (ok false) = answer 401 "Unauthorized"
  compared (err e) = throws e

  unfoldable pub auth_check : Option Text → Option Text → Verdict
  auth_check none expected = answer 401 "Unauthorized"
  auth_check (some token) none = answer 401 "Unauthorized"
  auth_check (some token) (some expected) = compared (safe_compare token expected)

  unfoldable pub auth_guard : Config → Headers → Verdict
  unfolding auth_check
  auth_guard config headers =
      auth_check (truthy (extract_auth_token headers)) (truthy config.relayer_auth_token)

module _ (origin_of_url : Text → Result Text) where
  -- `origin || (referer ? new URL(referer).origin : null)`
  unfoldable pub request_origin : Option Text → Option Text → Result (Option Text)
  request_origin (some origin) referer = ok (some origin)
  request_origin none none = ok none
  request_origin none (some referer) = elim (origin_of_url referer) [
    | ok origin ↦ ok (truthy (some origin))
    | err e ↦ err e
  ]

  unfoldable pub origin_check : List Text → Result (Option Text) → Verdict
  origin_check allowed (err e) = throws e
  origin_check allowed (ok none) = next
  origin_check allowed (ok (some origin)) =
      if not (any (same_text origin) allowed) then answer 403 "Origin not allowed" else next

  unfoldable pub csrf_origins : Option (List Text) → Headers → Verdict
  unfolding origin_check
  csrf_origins none headers = next
  csrf_origins (some allowed) headers =
      origin_check allowed (request_origin (truthy headers.origin) (truthy headers.referer))

  unfoldable pub csrf_guard : Config → String → Headers → Verdict
  unfolding csrf_origins
  csrf_guard config method headers =
      if str_eq method "GET" || (str_eq method "HEAD" || str_eq method "OPTIONS")
      then next
      else csrf_origins config.cors_origins headers
