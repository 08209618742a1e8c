-- ===== src/Indexer/Notices.antt =====
-- routes/indexer.ts, db.ts and the frontend's lib/api.ts together: what a notification does.
use zkvote.Prelude.{
  ℕ, ◌≡◌, ◌≢◌, refl, ap, subst, ◌⊎◌, inl, inr, String, codes, Bool, true, false, not, Option, none,
  some, [], ◌∷◌, ◌++◌, suc, ◌&&◌, if◌then◌else◌, Result, ok, err, arith, if_elim,
}
use zkvote.Validation.{tx_hash}
use zkvote.Client.{
  EventType, proposal_created, vote_cast, member_added, member_revoked, member_left,
  voter_registered, voter_removed, vk_updated, tree_init, dao_create, admin_transfer,
  membership_mode_changed, proposal_mode_changed, profile_updated, event_name,
}
use zkvote.Db.{Payload, json, null, with_bigint, JsNumber, num, nan, Db}
use zkvote.Db.Events.{
  row_of, payload_text, add_pending_event, add_event, insert_event, insert_text, caught,
}
use zkvote.Db.Pending.{pending_added}
use zkvote.Indexer.{notify_event}
use zkvote.Indexer.Routes.{
  Notification, BodyId, absent, number, text, given_id, given, or_empty, success, bad_request,
  failed, Handled, notified, notify_fields, notify, is_membership_event,
}

-- The DAO that an id of a body names.
abbrev pub Names : (String → JsNumber) → BodyId → ℕ → Type 0
Names number_of absent d = ⊥
Names number_of (number n) d = n ≡ d
Names number_of (text s) d = number_of s ≡ num d

-- A notification that was stored as a pending event of the DAO `d`.
pub record Stored (number_of : String → JsNumber) (now : ℕ) (initialized : Bool) (n : Notification)
    (db : Db) (h : Handled) : Type 0 where
  pub d : ℕ
  pub type : String
  pub hash : String
  pub payload : String
  pub answered : h.answer ≡ success
  pub names_dao : Names number_of n.dao_id d
  pub has_type : n.type ≡ some type
  pub has_hash : n.tx_hash ≡ some hash
  pub is_hash : tx_hash (codes hash) ≡ true
  pub has_payload : payload_text (or_empty n.payload) ≡ some payload
  pub stored : h.db ≡ record db {
    events =
        db.events
        ++ record {
          id = db.next_id;
          dao_id = d;
          type = type;
          payload = payload;
          ledger = none;
          tx_hash = some hash;
          timestamp = now;
          verified = false;
          created_at = now;
        }
          ∷ [];
    next_id = suc db.next_id;
  }
  pub started : h.synced ≡ (if is_membership_event type && initialized then num d ∷ [] else [])

-- Or an error was answered and nothing was done.
abbrev pub Outcome : (String → JsNumber) → ℕ → Bool → Notification → Db → Handled → Type 0
Outcome number_of now initialized n db h =
    Stored number_of now initialized n db h ⊎ ((h.answer ≢ success) × (h.db ≡ db) × (h.synced ≡ []))

refused_not : (m : String) → bad_request m ≢ success
refused_not m e = ground (arith, e)

failed_not : (m : String) → failed m ≢ success
failed_not m e = ground (arith, e)

or_empty_object : (p : Payload) → or_empty p ≢ null
or_empty_object null e = ground (arith, e)
or_empty_object (json t) e = ground (arith, e)
or_empty_object with_bigint e = ground (arith, e)

given_id-Names :
    (number_of : String → JsNumber) (i : BodyId) (d : ℕ)
    → given_id number_of i ≡ some (num d)
    → Names number_of i d
given_id-Names number_of absent d h = ground (arith, h)
given_id-Names number_of (number n) d h = ground (arith, h)
given_id-Names number_of (text s) d h = ground (arith, h)

given-some : (s : Option String) (t : String) → given s ≡ some t → s ≡ some t
given-some none t h = absurd (ground (arith, h))
given-some (some s) t h = ground (arith, h)

module _ (number_of : String → JsNumber) (now : ℕ) (initialized : Bool) (n : Notification)
    (db : Db) where
  -- A NULL ledger differs from every other, so that the insertion never finds a duplicate.
  inserted :
      (dao_id : JsNumber) (type hash : String) (p : Payload)
      → given_id number_of n.dao_id ≡ some dao_id
      → or_empty n.payload ≡ p
      → n.type ≡ some type
      → n.tx_hash ≡ some hash
      → tx_hash (codes hash) ≡ true
      → Outcome number_of now initialized n db
          (notified initialized dao_id type (add_pending_event now dao_id type p hash db))
  unfolding add_pending_event add_event insert_event insert_text caught payload_text row_of
  inserted nan type hash with_bigint i p t h v = inr (failed_not _, refl, refl)
  inserted nan type hash null i p t h v = inr (failed_not _, refl, refl)
  inserted nan type hash (json s) i p t h v = inr (failed_not _, refl, refl)
  inserted (num d) type hash with_bigint i p t h v = inr (failed_not _, refl, refl)
  inserted (num d) type hash null i p t h v = absurd (or_empty_object n.payload p)
  inserted (num d) type hash (json s) i p t h v =
      let added = pending_added now d type s hash db in
      inl (record {
        d = d;
        type = type;
        hash = hash;
        payload = s;
        answered = ap (λ r. (notified initialized (num d) type r).answer) added;
        names_dao = given_id-Names number_of n.dao_id d i;
        has_type = t;
        has_hash = h;
        is_hash = v;
        has_payload = ap payload_text p;
        stored = ap (λ r. (notified initialized (num d) type r).db) added;
        started = ap (λ r. (notified initialized (num d) type r).synced) added;
      })

  notify_fields-Outcome :
      (dao_id : Option JsNumber) (type hash : Option String)
      → given_id number_of n.dao_id ≡ dao_id
      → ((t : String) → type ≡ some t → n.type ≡ some t)
      → ((t : String) → hash ≡ some t → n.tx_hash ≡ some t)
      → Outcome number_of now initialized n db
          (notify_fields now initialized dao_id type n.payload hash db)
  unfolding notify_fields notify_event
  notify_fields-Outcome none type hash i t h = inr (refused_not _, refl, refl)
  notify_fields-Outcome (some d) none hash i t h = inr (refused_not _, refl, refl)
  notify_fields-Outcome (some d) (some type) none i t h = inr (refused_not _, refl, refl)
  notify_fields-Outcome (some d) (some type) (some hash) i t h =
      if_elim {A = Handled} (not (tx_hash (codes hash)))
        (λ r. Outcome number_of now initialized n db r) _ _ (λ bad. inr (refused_not _, refl, refl))
        (λ good.
          inserted d type hash (or_empty n.payload) i refl (t type refl) (h hash refl)
            (ground (arith, good)))

-- POST /events/notify either answers success, and then it has appended exactly one row, which is unverified and without
-- a ledger, has the id that was next, the DAO that the body names, the notification's type, its hash, which is one of
-- 64 hexadecimal digits, the text of its data, and the present time twice, and a synchronisation of that DAO was
-- started exactly for an event of membership where the routes have one; or it answers an error, and then the tables are
-- as they were and no synchronisation was started.
pub notify-Outcome :
    (number_of : String → JsNumber) (now : ℕ) (initialized : Bool) (n : Notification) (db : Db)
    → Outcome number_of now initialized n db (notify number_of now initialized n db)
unfolding notify
notify-Outcome number_of now initialized n db =
    notify_fields-Outcome number_of now initialized n db (given_id number_of n.dao_id)
      (given n.type) (given n.tx_hash) refl (given-some n.type) (given-some n.tx_hash)

-- The body that `notifyEvent` of lib/api.ts posts.
abbrev pub client_notification : ℕ → EventType → Payload → String → Notification
client_notification dao_id event payload hash = record {
  dao_id = number dao_id;
  type = some (event_name event);
  payload = or_empty payload;
  tx_hash = some hash;
}

not_membership : (event : EventType) → is_membership_event (event_name event) ≡ false
unfolding is_membership_event event_name
not_membership proposal_created = refl
not_membership vote_cast = refl
not_membership member_added = refl
not_membership member_revoked = refl
not_membership member_left = refl
not_membership voter_registered = refl
not_membership voter_removed = refl
not_membership vk_updated = refl
not_membership tree_init = refl
not_membership dao_create = refl
not_membership admin_transfer = refl
not_membership membership_mode_changed = refl
not_membership proposal_mode_changed = refl
not_membership profile_updated = refl

not_synced :
    (initialized : Bool) (d : JsNumber) (type : String) (r : Result Bool × Db)
    → is_membership_event type ≡ false
    → (notified initialized d type r).synced ≡ []
not_synced initialized d type (err e, db) h = refl
not_synced initialized d type (ok b, db) h = rw h refl

notify_fields_not_synced :
    (now : ℕ) (initialized : Bool) (dao_id : Option JsNumber) (type : Option String)
    (payload : Payload) (hash : Option String) (db : Db)
    → ((t : String) → type ≡ some t → is_membership_event t ≡ false)
    → (notify_fields now initialized dao_id type payload hash db).synced ≡ []
unfolding notify_fields
notify_fields_not_synced now initialized none type payload hash db h = refl
notify_fields_not_synced now initialized (some d) none payload hash db h = refl
notify_fields_not_synced now initialized (some d) (some type) payload none db h = refl
notify_fields_not_synced now initialized (some d) (some type) payload (some hash) db h =
    if_elim {A = Handled} (not (tx_hash (codes hash))) (λ r. r.synced ≡ []) _ _ (λ bad. refl)
      (λ good.
        not_synced initialized d type (notify_event now d type (or_empty payload) hash db)
          (h type refl))

some_injective : (a b : String) → some a ≡ some b → a ≡ b
some_injective a b e = ground (arith, e)

-- No notification that the frontend sends, for any of its types of events, starts a synchronisation of the members.
pub client_notification_not_synced :
    (number_of : String → JsNumber) (now : ℕ) (initialized : Bool) (dao_id : ℕ) (event : EventType)
    (payload : Payload) (hash : String) (db : Db)
    → (notify number_of now initialized (client_notification dao_id event payload hash) db).synced
      ≡ []
unfolding notify
client_notification_not_synced number_of now initialized dao_id event payload hash db =
    notify_fields_not_synced now initialized (given_id number_of (number dao_id))
      (given (some (event_name event))) (or_empty payload) (given (some hash)) db
      (λ t e.
        subst (λ s. is_membership_event s ≡ false)
          (some_injective (event_name event) t (given-some (some (event_name event)) t e))
          (not_membership event))
