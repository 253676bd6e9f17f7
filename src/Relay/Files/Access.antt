-- ===== src/Relay/Files/Access.antt =====
-- Who may fetch or acknowledge a stored file: handleRequestFile and handleFileReceived of
-- wiltkey_server/handlers.go.
use wilt_key.Prelude.{
  ℕ, ◌≡◌, refl, sym, ap, eq_iff, String, Bool, true, false, not, ◌&&◌, Option, none, some, List, [],
  ◌∷◌, ◌==◌, ltb, All, arith, if_case, if_split, option_split,
}
use wilt_key.Db.{PgMessage}
use wilt_key.Db.Messages.{first, is_some, get_file_message}
use wilt_key.Relay.{Env, World, Client, WsMessage, Op, send_json, file_error}
use wilt_key.Relay.Files.{acknowledge, handle_request_file, handle_file_received}

-- A row that is not the file `id` of this recipient, or is over.
abbrev pub NotFor : ℕ → String → String → PgMessage → Type 0
NotFor now id recipient_id m =
    (m.id == id && m.recipient_id == recipient_id && is_some m.bucket_url && ltb now m.expires_at)
    ≡ false

first-none :
    (p : PgMessage → Bool) (ms : List PgMessage) → All (λ m. p m ≡ false) ms → first p ms ≡ none
first-none p [] hs = refl
first-none p (m ∷ ms) (h, hs) = ground (arith, first-none p ms hs)

-- The state after an error for this file, and no other change.
abbrev pub Told : World → Client → WsMessage → World → Type 0
Told w c msg w' = (reason : String) × (w' ≡ send_json w c (file_error msg.message_id reason))

-- A client is given a token only for a file that was sent to him, is stored and has not expired:
-- where no row is such, all that changes is that an error for this file is sent to him.
pub request_file_refused :
    (env : Env) (w : World) (c : Client) (msg : WsMessage)
    → All (NotFor env.now msg.message_id c.id) w.db.messages
    → (reason : String) × (handle_request_file env w c msg
        ≡ send_json w c (file_error msg.message_id reason))
unfolding handle_request_file get_file_message
request_file_refused env w c msg hs =
    let P : World → Type 0 = Told w c msg in
    let wanted : PgMessage → Bool = λ m.
      m.id == msg.message_id
      && m.recipient_id == c.id
      && is_some m.bucket_url
      && ltb env.now m.expires_at in
    let absent : first wanted w.db.messages ≡ none = first-none wanted w.db.messages hs in
    if_split P (msg.message_id == "")
      (λ blank.
        let same : msg.message_id ≡ "" = (eq_iff msg.message_id "").0 blank in
        (
          "Missing message_id",
          ap (λ id. send_json w c (file_error id "Missing message_id")) (sym same),
        ))
      (λ _.
        if_case P (not env.has_pg) ("File storage is not configured", refl)
          (if_case P (env.fails Op.get_file msg.message_id) ("Could not look up that file", refl)
            (option_split P (first wanted w.db.messages)
              (λ _. ("File is no longer available", refl))
              (λ found e. absurd (ground (arith, absent, e))))))

first-All :
    (p q : PgMessage → Bool) (ms : List PgMessage) (found : PgMessage)
    → All (λ m. q m ≡ true) ms
    → first p ms ≡ some found
    → q found ≡ true
first-All p q [] found hs e = ground arith
first-All p q (m ∷ ms) found (h, hs) e = ground (arith, first-All p q ms found hs)

first-holds :
    (p : PgMessage → Bool) (ms : List PgMessage) (found : PgMessage)
    → first p ms ≡ some found
    → p found ≡ true
first-holds p [] found e = ground arith
first-holds p (m ∷ ms) found e = ground (arith, first-holds p ms found)

abbrev SameStore : World → World → Type 0
SameStore w w' = (w'.db ≡ w.db) × (w'.bucket ≡ w.bucket) × (w'.redis ≡ w.redis)

acknowledge_other :
    (env : Env) (w : World) (c : Client) (found : PgMessage) (u : Option String)
    → not (found.recipient_id == c.id) ≡ true
    → SameStore w (acknowledge env w c found u)
unfolding acknowledge send_json
acknowledge_other env w c found none h = (refl, refl, refl)
acknowledge_other env w c found (some url) h = ground arith

-- Only the recipient of a file can have it removed: where no row is a message of that id to this
-- client, his acknowledgement leaves the rows, the objects and the queues as they are.
pub received_by_other :
    (env : Env) (w : World) (c : Client) (msg : WsMessage)
    → All (λ m. not (m.id == msg.message_id && m.recipient_id == c.id) ≡ true) w.db.messages
    → ((handle_file_received env w c msg).db ≡ w.db)
      × ((handle_file_received env w c msg).bucket ≡ w.bucket)
      × ((handle_file_received env w c msg).redis ≡ w.redis)
unfolding handle_file_received
received_by_other env w c msg hs =
    let P : World → Type 0 = SameStore w in
    let by_id : PgMessage → Bool = λ m. m.id == msg.message_id in
    let foreign : PgMessage → Bool = λ m. not (m.id == msg.message_id && m.recipient_id == c.id) in
    if_case P (msg.message_id == "") (refl, refl, refl)
      (if_case P (not env.has_pg) (refl, refl, refl)
        (if_case P (env.fails Op.query_message msg.message_id) (refl, refl, refl)
          (option_split P (first by_id w.db.messages) (λ _. (refl, refl, refl))
            (λ found e. acknowledge_other env w c found found.bucket_url (
              ground (
                arith,
                first-holds by_id w.db.messages found e,
                first-All by_id foreign w.db.messages found hs e,
              ))))))
