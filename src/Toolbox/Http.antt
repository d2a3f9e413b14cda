-- ===== src/Toolbox/Http.antt =====
-- `HTTPErrorToResult` of toolbox/cmd.go and `HTTPResponse.Non2xxToError` of inet/http_client.go.
--
-- An error is a constructor for its text, and a result is its error and output. A nil body is
-- `none`.
use laitos.Base.{
  ℕ, ◌/◌, ◌≤◌, ◌<◌, ◌≡◌, ◌↔◌, not, [], ◌∷◌, Option, none, some, Bytes, codes, arith, ltb, ◌==◌,
  if◌then◌else◌, take, length,
}

pub record HttpResponse : Type 0 where
  pub status_code : ℕ
  pub body : Option Bytes

pub data HttpError : Type 0 where
  failed : Bytes → HttpError  -- the caller's error
  bad_status : ℕ → Bytes → HttpError  -- `HTTP %d: %s`

pub record HttpFailure : Type 0 where
  pub error : HttpError
  pub output : Bytes

-- No more than 256 bytes of a body.
unfoldable pub compact : Bytes → Bytes
compact body = if ltb 256 (length body) then take 256 body else body

unfoldable pub shown_body : Option Bytes → Bytes
unfolding compact
shown_body none = codes "<IO error prior to response>"
shown_body (some []) = codes "<empty response>"
shown_body (some (c ∷ s)) = compact (c ∷ s)

unfoldable pub non2xx_to_error : HttpResponse → Option HttpError
unfolding shown_body
non2xx_to_error resp =
    if not (resp.status_code / 200 == 1)
    then some (bad_status resp.status_code (shown_body resp.body))
    else none

-- The body as a string: nil is empty.
abbrev text_of : Option Bytes → Bytes
text_of none = []
text_of (some s) = s

unfoldable pub failure_of : Bytes → Option HttpError → Option HttpFailure
failure_of output none = none
failure_of output (some e) = some (record { error = e; output = output })

unfoldable pub http_error_to_result : HttpResponse → Option Bytes → Option HttpFailure
unfolding failure_of non2xx_to_error
http_error_to_result resp (some err) = failure_of (compact (text_of resp.body)) (some (failed err))
http_error_to_result resp none = failure_of (compact (text_of resp.body)) (non2xx_to_error resp)

-- A response is taken for a success where the request had no error and the status is from 200 to
-- 399, and in no other case.
pub http_error_to_result-none_iff :
    (resp : HttpResponse) (err : Option Bytes)
    → (http_error_to_result resp err ≡ none)
      ↔ ((err ≡ none) × (200 ≤ resp.status_code) × (resp.status_code < 400))
unfolding http_error_to_result non2xx_to_error failure_of
http_error_to_result-none_iff resp (some err) = ground arith
http_error_to_result-none_iff resp none = ground arith
