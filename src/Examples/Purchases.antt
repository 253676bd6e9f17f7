-- ===== src/Examples/Purchases.antt =====
-- Concrete inputs to the laws of purchases and of the access tokens behind them.
use wilt_key.Prelude.{ℕ, ◌+◌, ◌*◌, ◌≡◌, refl, String, true, none, some, [], ◌∷◌, leb}
use wilt_key.Time.{hour, unix}
use wilt_key.Crypto.{bytes, sha256_hex, Result, ok, err}
use wilt_key.Play.{answered, AccessToken, Subscription, IntegrityPayload, Google, TokenSource}
use wilt_key.Play.Billing.{PlayVerifier}
use wilt_key.Play.Billing.Verdicts.{Answered}
use wilt_key.Relay.Premium.{holds, check_premium_subscription}
use wilt_key.Relay.Http.{reply}
use wilt_key.Relay.Http.Guards.{Accepted}
use wilt_key.Relay.Http.Entitlement.{
  EntitlementRequest, success, entitlement_claim, handle_post_entitlement,
}
use wilt_key.Relay.Http.Entitlement.Lapse.{granted_until, premium_lapses}
use wilt_key.Relay.Http.Entitlement.Paid.{Keeps, Recorded, google_entitles, refused-Keeps}
use wilt_key.Examples.{noon, env, world, hashes}
use wilt_key.Examples.Handshakes.{zero_key, zero_signature}

abbrev bearer : AccessToken
bearer = record { access_token = "bearer"; expires_in = 3600 }

abbrev subscription : Subscription
subscription = record {
  subscription_state = "SUBSCRIPTION_STATE_CANCELED";
  line_items = none ∷ some (noon + 2 * hour) ∷ some (noon + hour) ∷ [];
}

abbrev pub payload : IntegrityPayload
payload = record {
  error = none;
  request_package_name = "xyz.artfacility.wiltkey";
  nonce = "AAAA";
  app_recognition_verdict = "PLAY_RECOGNIZED";
  device_recognition_verdict = "MEETS_DEVICE_INTEGRITY" ∷ [];
}

abbrev pub google : Google
google = record {
  assertion = λ t. ok "assertion";
  post_form = λ a. answered 200 "{}" none (some bearer);
  get_subscription = λ package_name token access. answered 200 "{}" none (some subscription);
  decode_integrity_token = λ package_name token access. answered 200 "{}" none (some payload);
}

-- Google is not reached.
abbrev outage : Google
outage = record google { assertion = λ t. err "no key" }

abbrev pub no_token : TokenSource
no_token = record { token = ""; expiry = 0 }

abbrev verifier : PlayVerifier
verifier = record { enabled = true; package_name = "xyz.artfacility.wiltkey"; tokens = no_token }

abbrev purchase : EntitlementRequest
purchase = record {
  user_id = "000000";
  pubkey = zero_key;
  signature = zero_signature;
  timestamp = 1000010;
  purchase_token = "bought";
  subscription_hash = "forged";
}

purchase_succeeds :
    (handle_post_entitlement env hashes google verifier world "POST" "10.0.0.1" (some purchase)).0
    ≡ success (unix (noon + 2 * hour))
unfolding handle_post_entitlement wilt_key.Crypto.hex_decode wilt_key.Crypto.generate_user_id
    wilt_key.Crypto.hex_encode wilt_key.Crypto.verify_signature
purchase_succeeds = refl

google_entitles_example :
    Accepted env hashes 30 (entitlement_claim purchase)
    × ((access_token : String) × (expiry : ℕ) × Answered noon
          (google.get_subscription "xyz.artfacility.wiltkey" "bought" access_token)
          expiry
        × (unix expiry ≡ unix (noon + 2 * hour))
        × Recorded env world "000000"
            (sha256_hex hashes (bytes "bought"))
            expiry
            (handle_post_entitlement env hashes google verifier world "POST" "10.0.0.1"
              (some purchase)).1)
google_entitles_example =
    google_entitles env hashes google verifier world "POST" "10.0.0.1" purchase
      (unix (noon + 2 * hour)) refl purchase_succeeds

premium_lapses_example :
    (unix (noon + 2 * hour) ≡ unix (granted_until env google verifier purchase))
    × (holds
          (check_premium_subscription
            (record env { now = noon + 3 * hour })
            (handle_post_entitlement env hashes google verifier world "POST" "10.0.0.1"
              (some purchase)).1
            "000000").0
        ≡ leb (noon + 3 * hour) (granted_until env google verifier purchase))
unfolding wilt_key.Crypto.hex_encode
premium_lapses_example =
    premium_lapses env (record env { now = noon + 3 * hour }) hashes google verifier world "POST"
      "10.0.0.1" purchase (unix (noon + 2 * hour)) refl refl refl refl purchase_succeeds

refused-Keeps_example :
    Keeps world
      (handle_post_entitlement env hashes outage verifier world "POST" "10.0.0.1" (some purchase)).1
unfolding handle_post_entitlement wilt_key.Crypto.hex_decode wilt_key.Crypto.generate_user_id
    wilt_key.Crypto.hex_encode wilt_key.Crypto.verify_signature
refused-Keeps_example =
    refused-Keeps env hashes outage verifier world "POST" "10.0.0.1" (some purchase)
      (reply 503 "Could not verify the purchase right now, please try again") refl
