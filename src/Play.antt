-- ===== src/Play.antt =====
-- The relay's clients of Google: google_oauth.go, play_billing.go and play_integrity.go of
-- wiltkey_server. Google's answers and the signed assertion are a parameter. An answer's body
-- stands beside what it decodes to.
pub mod Billing
pub mod Integrity
pub mod Caching
use wilt_key.Prelude.{
  ℕ, ◌+◌, ◌-◌, ◌*◌, String, Bool, not, ◌&&◌, Option, none, some, List, ◌==◌, ltb, eqb,
  if◌then◌else◌,
}
use wilt_key.Prelude.Text.{concat}
use wilt_key.Time.{second}
use wilt_key.Crypto.{Result, ok, err, decimal}

-- An error of the transport, or the status, the body, the error in reading it, and what it decodes
-- to, where it does.
pub data Answer (A : Type 0) : Type 0 where
  unreachable : String → Answer A
  answered : ℕ → String → Option String → Option A → Answer A

pub record AccessToken : Type 0 where
  pub access_token : String
  pub expires_in : ℕ

-- subscriptionV2. The expiry of a line item is `none` where it is empty or no RFC 3339 time.
pub record Subscription : Type 0 where
  pub subscription_state : String
  pub line_items : List (Option ℕ)

-- PlayIntegrityTokenResponse, with the message and the code of its error.
pub record IntegrityPayload : Type 0 where
  pub error : Option (String × ℕ)
  pub request_package_name : String
  pub nonce : String
  pub app_recognition_verdict : String
  pub device_recognition_verdict : List String

-- The assertion signed at a time, and the endpoints: for tokens, for the subscription of a package,
-- purchase token and access token, and for the payload of a package, integrity token and access
-- token.
pub record Google : Type 0 where
  pub assertion : ℕ → Result String
  pub post_form : String → Answer AccessToken
  pub get_subscription : String → String → String → Answer Subscription
  pub decode_integrity_token : String → String → String → Answer IntegrityPayload

-- googleTokenSource
pub record TokenSource : Type 0 where
  pub token : String
  pub expiry : ℕ

-- The token of an answer.
unfoldable pub token_of : Answer AccessToken → Result AccessToken
token_of (unreachable e) = err (concat "token request: " e)
token_of (answered status body e decoded) =
    if not (eqb status 200)
    then err (concat "token endpoint status " (concat (decimal status) (concat ": " body)))
    else elim decoded [
      | none ↦ err "decode token response"
      | some tok ↦ if tok.access_token == "" then err "empty access token" else ok tok
    ]

-- An expiry before now, of a lifetime under a minute, is like one at now: no later call uses it.
abbrev pub renewed : ℕ → TokenSource → Result AccessToken → Result String × TokenSource
renewed now g (err e) = (err e, g)
renewed now g (ok tok) = (
  ok tok.access_token,
  record { token = tok.access_token; expiry = now + (tok.expires_in - 60) * second },
)

abbrev pub exchange : Google → ℕ → TokenSource → Result String → Result String × TokenSource
exchange google now g (err e) = (err (concat "sign jwt: " e), g)
exchange google now g (ok assertion) = renewed now g (token_of (google.post_form assertion))

unfoldable pub get : Google → ℕ → TokenSource → Result String × TokenSource
unfolding token_of
get google now g =
    if not (g.token == "") && ltb now g.expiry
    then (ok g.token, g)
    else exchange google now g (google.assertion now)
