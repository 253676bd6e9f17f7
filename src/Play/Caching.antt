-- ===== src/Play/Caching.antt =====
-- The access tokens that google_oauth.go of wiltkey_server caches.
use wilt_key.Prelude.{
  ℕ, ◌+◌, ◌-◌, ◌*◌, ◌≡◌, not, ◌&&◌, String, false, none, some, ◌==◌, arith, ltb, if◌then◌else◌,
}
use wilt_key.Time.{second}
use wilt_key.Crypto.{ok}
use wilt_key.Play.{
  Answer, unreachable, answered, AccessToken, Google, TokenSource, token_of, exchange, get,
}

-- Where the answer is a token, it is not empty.
token_of-full :
    (a : Answer AccessToken) (tok : AccessToken)
    → token_of a ≡ ok tok
    → (tok.access_token == "") ≡ false
unfolding token_of
token_of-full (unreachable e) tok h = cc
token_of-full (answered status body e none) tok h = ground arith
token_of-full (answered status body e (some t)) tok h = ground arith

-- A token that was just minted serves every later call until a minute before it lapses, whether or
-- not Google can be reached, and then no longer: the call after that asks again.
pub get-get :
    (google google' : Google) (now later : ℕ) (g : TokenSource) (assertion : String)
    (tok : AccessToken)
    → (not (g.token == "") && ltb now g.expiry) ≡ false
    → google.assertion now ≡ ok assertion
    → token_of (google.post_form assertion) ≡ ok tok
    → let (answer, g') = get google now g in
      (answer ≡ ok tok.access_token)
      × (get google' later g' ≡ (
          if ltb later (now + (tok.expires_in - 60) * second)
          then (ok tok.access_token, g')
          else exchange google' later g' (google'.assertion later)))
unfolding get
get-get google google' now later g assertion tok stale signed minted =
    ground (arith, token_of-full (google.post_form assertion) tok minted)
