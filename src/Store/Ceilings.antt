-- ===== src/Store/Ceilings.antt =====
-- The three storage ceilings of AppendMessage.
use sund.Prelude.{
  ℕ, ◌+◌, ◌≤◌, ◌<◌, ◌≡◌, ◌↔◌, refl, ◌⊎◌, inl, inr, ap, subst, sym, Bool, true, false, ◌||◌, some,
  List, [], ◌∷◌, ◌++◌, String, Bytes, ℤ, pos, negsuc, length, arith,
}
use sund.Sql.{total}
use sund.Sql.Laws.{total-append}
use sund.Store.Tables.{Db, Queue, Device, Account, Message, ok, err, quota_exceeded, format}
use sund.Store.Messages.{
  size, queue_used, device_used, account_used, exceeds, resolve, over_quota, insert_message,
  append_message,
}
use sund.Store.Shapes.{append_message_commits}

-- One row more counts for its size at most.
total-insert :
    (p : Message → Bool) (ms : List Message) (m : Message)
    → total size p (ms ++ m ∷ []) ≤ total size p ms + size m
unfolding total
total-insert p ms m = ground (arith, total-append size p ms (m ∷ []))

module _ (db : Db) (m : Message) (now : ℕ) where
  queue_grows :
      (id : String) → queue_used (insert_message m db) id now ≤ queue_used db id now + size m
  unfolding queue_used insert_message
  queue_grows id = total-insert _ db.messages m

  device_grows :
      (id : String) → device_used (insert_message m db) id now ≤ device_used db id now + size m
  unfolding device_used insert_message
  device_grows id = total-insert _ db.messages m

  account_grows :
      (id : String) → account_used (insert_message m db) id now ≤ account_used db id now + size m
  unfolding account_used insert_message
  account_grows id = total-insert _ db.messages m

-- Payloads of `n` bytes fit under a ceiling; one that is not positive is no ceiling.
abbrev pub Fits : ℤ → ℕ → Type 0
Fits (pos q) n = (q ≡ 0) ⊎ (n ≤ q)
Fits (negsuc q) n = Unit

-- There is a ceiling, and `n` bytes are more than it.
abbrev pub Breaks : ℤ → ℕ → Type 0
Breaks (pos q) n = (0 < q) × (q < n)
Breaks (negsuc q) n = ⊥

exceeds-Fits : (q : ℤ) (a b : ℕ) → a ≤ b → exceeds q b ≡ false → Fits q a
exceeds-Fits (pos q) a b h e = ground arith
exceeds-Fits (negsuc q) a b h e = tt

exceeds-Breaks : (q : ℤ) (n : ℕ) → (exceeds q n ≡ true) ↔ Breaks q n
exceeds-Breaks (pos q) n = (λ h. ground arith, λ h. ground arith)
exceeds-Breaks (negsuc q) n = (λ h. cc, λ h. absurd h)

any_of_three :
    (a b c : Bool) {P Q R : Type 0}
    → (a ≡ true) ↔ P
    → (b ≡ true) ↔ Q
    → (c ≡ true) ↔ R
    → ((a || b || c) ≡ true) ↔ (P ⊎ (Q ⊎ R))
any_of_three true b c p q r = (λ h. inl (p.0 refl), λ h. refl)
any_of_three false true c p q r = (λ h. inr (inl (q.0 refl)), λ h. refl)
any_of_three false false true p q r = (λ h. inr (inr (r.0 refl)), λ h. refl)
any_of_three false false false p q r =
    (λ h. cc, λ h. elim h [ inl x ↦ p.1 x | inr y ↦ elim y [ inl x ↦ q.1 x | inr x ↦ r.1 x ] ])

module _ (db : Db) (id : String) (payload : Bytes) (ttl : ℤ) (random : Bytes) (now : ℕ) where
  -- The three levels are within their ceilings at the second of the send.
  abbrev pub Within : Db → Queue → Device → Account → Type 0
  Within x q d a =
      Fits q.quota_bytes (queue_used x q.recipient_id (format now))
      × Fits d.quota_bytes (device_used x d.id (format now))
      × Fits a.quota_bytes (account_used x a.id (format now))

  module _ {db' : Db} {m : Message}
      (e : append_message id payload ttl random now db ≡ ok (m, db')) where
    stored_payload : m.payload ≡ payload
    unfolding append_message
    stored_payload = ground arith

    not_over :
        (q : Queue) (d : Device) (a : Account)
        → resolve db id ≡ some (q, d, a)
        → over_quota db q d a (format now) (length payload) ≡ false
    unfolding append_message
    not_over q d a r = ground arith

    -- A message that is accepted leaves the queue, the device that owns it and the device's account
    -- each within its ceiling, where it has one: the payloads that have not expired add up to the
    -- ceiling at most, the new one included.
    pub append-Within :
        (q : Queue) (d : Device) (a : Account) → resolve db id ≡ some (q, d, a) → Within db' q d a
    unfolding over_quota
    append-Within q d a r =
        let n : length m.payload ≡ length payload = ap length stored_payload in
        subst (λ x. Within x q d a) (sym (append_message_commits db id payload ttl random now e))
          (
            exceeds-Fits q.quota_bytes
                (queue_used (insert_message m db) q.recipient_id (format now))
                (queue_used db q.recipient_id (format now) + length payload)
                (omega (arith, n, queue_grows db m (format now) q.recipient_id))
                (ground (arith, not_over q d a r)),
            exceeds-Fits d.quota_bytes (device_used (insert_message m db) d.id (format now))
                (device_used db d.id (format now) + length payload)
                (omega (arith, n, device_grows db m (format now) d.id))
                (ground (arith, not_over q d a r)),
            exceeds-Fits a.quota_bytes (account_used (insert_message m db) a.id (format now))
                (account_used db a.id (format now) + length payload)
                (omega (arith, n, account_grows db m (format now) a.id))
                (ground (arith, not_over q d a r)),
          )

  refused_over :
      (q : Queue) (d : Device) (a : Account)
      → resolve db id ≡ some (q, d, a)
      → (append_message id payload ttl random now db ≡ err quota_exceeded)
        ↔ (over_quota db q d a (format now) (length payload) ≡ true)
  unfolding append_message
  refused_over q d a r = (λ h. ground arith, λ h. ground arith)

  -- A send to a queue that is there is refused for its quota exactly when one of the three ceilings
  -- is set and is less than the payloads that have not expired and the new one together; landing on
  -- a ceiling is no refusal.
  pub append_refused :
      (q : Queue) (d : Device) (a : Account)
      → resolve db id ≡ some (q, d, a)
      → (append_message id payload ttl random now db ≡ err quota_exceeded) ↔ (
          Breaks q.quota_bytes (queue_used db q.recipient_id (format now) + length payload)
          ⊎ (Breaks d.quota_bytes (device_used db d.id (format now) + length payload)
              ⊎ Breaks a.quota_bytes (account_used db a.id (format now) + length payload)))
  unfolding over_quota
  append_refused q d a r =
      let over =
        any_of_three _ _ _
          (exceeds-Breaks q.quota_bytes
            (queue_used db q.recipient_id (format now) + length payload))
          (exceeds-Breaks d.quota_bytes (device_used db d.id (format now) + length payload))
          (exceeds-Breaks a.quota_bytes (account_used db a.id (format now) + length payload)) in
      (λ h. over.0 ((refused_over q d a r).0 h), λ h. (refused_over q d a r).1 (over.1 h))
