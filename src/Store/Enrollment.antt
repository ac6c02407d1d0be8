-- ===== src/Store/Enrollment.antt =====
-- Enrollment by a one-time token: RegisterDevice over histories.
use sund.Prelude.{
  ℕ, ◌≡◌, refl, sym, subst, ap, true, false, List, String, ◌==◌, Bytes, arith, length,
  if◌then◌else◌,
}
use sund.Sql.{count}
use sund.Sql.Keys.{Holds-map, Holds-update_to}
use sund.Sql.Unique.{found_row, count_none}
use sund.Store.Tables.{Db, Invitation, Device, ok, err, invalid_invitation, format, public_key_size}
use sund.Store.Invitations.{hash_token}
use sund.Store.Devices.{register_device, consume, is_usable}
use sund.Store.Commands.{Command, registers, after, execute, run}
use sund.Store.Shapes.{register_device_commits}
use sund.Store.Forward.{IsConsumed}
use sund.Store.History.{run-Forward}
use sund.Store.Keyed.{IsKeyed, run-IsKeyed, execute-IsKeyed}

module _ (hash : String) (now : ℕ) where
  usable_hash : (i : Invitation) → is_usable hash now i ≡ true → (i.token_hash == hash) ≡ true
  usable_hash i h = ground arith

  becomes_consumed :
      (i : Invitation)
      → is_usable hash now i ≡ true
      → (if is_usable hash now i then record i { consumed = true } else i).consumed ≡ true
  becomes_consumed i h = rw h

  consumed_unusable : (i : Invitation) → i.consumed ≡ true → is_usable hash now i ≡ false
  consumed_unusable i h = ground arith

  consume-IsConsumed :
      (db : Db)
      → IsKeyed db
      → count (is_usable hash now) db.invitations ≡ 1
      → IsConsumed (consume hash now db) hash
  unfolding consume
  consume-IsConsumed db v n =
      Holds-update_to (λ i. is_usable hash now i ≡ true) (λ i. i.consumed ≡ true)
        (λ i. i.token_hash == hash) (is_usable hash now) (λ i. record i { consumed = true })
        (λ i. refl) becomes_consumed db.invitations
        (found_row (λ i. i.token_hash == hash) (is_usable hash now) usable_hash db.invitations
          (v.invitations hash) n)

  consumed-count :
      (db : Db) → IsKeyed db → IsConsumed db hash → count (is_usable hash now) db.invitations ≡ 0
  consumed-count db v h =
      count_none (λ i. i.token_hash == hash) (is_usable hash now) usable_hash db.invitations
        (v.invitations hash)
        (Holds-map (λ i. i.consumed ≡ true) (λ i. is_usable hash now i ≡ false) consumed_unusable _
          h)

module _ (sha256 : Bytes → Bytes) (token : String) where
  module _ (key : Bytes) (endpoint capabilities : String) (random : Bytes) (now : ℕ) where
    used_one :
        (db : Db) {d : Device} {db' : Db}
        → register_device sha256 token key endpoint capabilities random now db ≡ ok (d, db')
        → count (is_usable (hash_token sha256 token) (format now)) db.invitations ≡ 1
    unfolding register_device
    used_one db e = ground arith

    refused :
        (db : Db)
        → length key ≡ public_key_size
        → count (is_usable (hash_token sha256 token) (format now)) db.invitations ≡ 0
        → register_device sha256 token key endpoint capabilities random now db
          ≡ err invalid_invitation
    unfolding register_device
    refused db size n = ground arith

    register-IsConsumed :
        (db : Db) {d : Device} {db' : Db}
        → IsKeyed db
        → register_device sha256 token key endpoint capabilities random now db ≡ ok (d, db')
        → IsConsumed db' (hash_token sha256 token)
    register-IsConsumed db v e =
        subst (λ x. IsConsumed x (hash_token sha256 token))
          (sym (register_device_commits db sha256 token key endpoint capabilities random now e))
          (consume-IsConsumed _ _ db v (used_one db e))

    register-IsKeyed :
        (db : Db) {d : Device} {db' : Db}
        → IsKeyed db
        → register_device sha256 token key endpoint capabilities random now db ≡ ok (d, db')
        → IsKeyed db'
    unfolding execute
    register-IsKeyed db v e =
        subst IsKeyed (ap (after db) e)
          (execute-IsKeyed sha256 (registers token key endpoint capabilities random now) db v)

  -- A token enrolls one device. After a registration with the token has succeeded, and after any
  -- further history of commands, every registration with the same token and a key of the right
  -- size is refused as an invalid invitation, at whatever time.
  pub token_single_use :
      (db db' : Db) (d : Device) (key key' : Bytes)
      (endpoint endpoint' capabilities capabilities' : String) (random random' : Bytes)
      (now now' : ℕ) (cs : List Command)
      → IsKeyed db
      → register_device sha256 token key endpoint capabilities random now db ≡ ok (d, db')
      → length key' ≡ public_key_size
      → register_device sha256 token key' endpoint' capabilities' random' now' (run sha256 cs db')
        ≡ err invalid_invitation
  token_single_use db db' d key key' endpoint endpoint' capabilities capabilities' random random'
        now now' cs v e size =
      refused key' endpoint' capabilities' random' now' (run sha256 cs db') size (
        consumed-count _ _ _
          (run-IsKeyed sha256 cs db' (register-IsKeyed key endpoint capabilities random now db v e))
          ((run-Forward sha256 cs db').consumed _
            (register-IsConsumed key endpoint capabilities random now db v e)))
