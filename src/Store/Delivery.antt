-- ===== src/Store/Delivery.antt =====
-- internal/store/queue.go: AppendMessage and DrainMessages with a history of commands in between.
use sund.Prelude.{
  ℕ, ◌<◌, ◌≡◌, sym, ap, ◌∙◌, subst, Bool, false, some, none, Option, List, [], ◌∷◌, String, ◌==◌,
  Bytes, ℤ, arith, eq_iff, eq_refl,
}
use sund.Sql.{find_row, has_row}
use sund.Sql.Laws.{find_row-append, find_row-insert}
use sund.Sql.Keys.{find_row-delete_rows, find_row-select}
use sund.Store.Tables.{Db, Message, ok, format}
use sund.Store.Messages.{append_message, drain_messages, insert_message, in_queue}
use sund.Store.Commands.{Command, execute, run}
use sund.Store.Shapes.{append_message_commits}
use sund.Store.Order.{
  IsOrdered, run-IsOrdered, drain_messages-in_order, mailbox, Change, stays, loses, gains, removes,
  execute-Change, next_seq, append_message-IsOrdered,
}

abbrev pub message_at : Db → String → Option Message
message_at db id = find_row (λ m. m.id == id) db.messages

module _ (m : Message) where
  Change-keeps :
      (p : Message → Bool) (db db' : Db)
      → Change p db db'
      → p m ≡ false
      → message_at db m.id ≡ some m
      → message_at db' m.id ≡ some m
  unfolding insert_message
  Change-keeps p db db' (stays e f) h k =
      subst (λ ms. find_row (λ n. n.id == m.id) ms ≡ some m) (sym e) k
  Change-keeps p db db' (loses e f) h k =
      subst (λ ms. find_row (λ n. n.id == m.id) ms ≡ some m) (sym e)
        (find_row-delete_rows (λ n. n.id == m.id) p m db.messages k h)
  Change-keeps p db db' (gains n e f) h k =
      subst (λ d. message_at d m.id ≡ some m) (sym e)
        (find_row-append (λ x. x.id == m.id) db.messages (n ∷ [])
          ∙ ap (λ o. elim o [ none ↦ find_row (λ x. x.id == m.id) (n ∷ []) | some x ↦ some x ]) k)

module _ (sha256 : Bytes → Bytes) (m : Message) where
  -- No command of the history has a reason to delete the message: its queue is not retired and its
  -- owner not revoked, no drain of its queue and no purge comes after its expiry, and no DELETE of
  -- its queue names it.
  abbrev pub AllSpare : Db → List Command → Type 0
  AllSpare db [] = Unit
  AllSpare db (c ∷ cs) = (removes db c m ≡ false) × AllSpare (execute sha256 c db) cs

  run-keeps :
      (cs : List Command) (db : Db)
      → AllSpare db cs
      → message_at db m.id ≡ some m
      → message_at (run sha256 cs db) m.id ≡ some m
  unfolding run
  run-keeps [] db h k = k
  run-keeps (c ∷ cs) db h k =
      run-keeps cs _ h.1 (Change-keeps m (removes db c) db _ (execute-Change sha256 c db) h.0 k)

-- The id was unused.
fresh_id :
    (id : String) (payload : Bytes) (ttl : ℤ) (random : Bytes) (now : ℕ) (db : Db) {db' : Db}
    {m : Message}
    → append_message id payload ttl random now db ≡ ok (m, db')
    → has_row (λ n. n.id == m.id) db.messages ≡ false
unfolding append_message
fresh_id id payload ttl random now db e = ground arith

appended-found :
    (id : String) (payload : Bytes) (ttl : ℤ) (random : Bytes) (now : ℕ) (db : Db) {db' : Db}
    {m : Message}
    → append_message id payload ttl random now db ≡ ok (m, db')
    → message_at db' m.id ≡ some m
unfolding insert_message
appended-found id payload ttl random now db {m} e =
    rw (append_message_commits db id payload ttl random now e) (
      find_row-insert (λ n. n.id == m.id) db.messages m (fresh_id id payload ttl random now db e)
        (eq_refl m.id))

-- A drain before the expiry returns what is in the queue.
drained-found :
    (id : String) (now : ℕ) (db : Db) (m : Message)
    → IsOrdered db
    → message_at db m.id ≡ some m
    → m.queue_id ≡ id
    → format now < m.expires
    → find_row (λ n. n.id == m.id) (drain_messages id now db).0 ≡ some m
unfolding mailbox
drained-found id now db m v k e t = rw (drain_messages-in_order id now db v).0 (
    find_row-delete_rows (λ n. n.id == m.id) _ m _
      (find_row-select (λ n. n.id == m.id) (in_queue id) m db.messages k
        (ground (arith, eq_iff m.queue_id id)))
      (ground arith))

-- A message that AppendMessage stored is returned by DrainMessages, unchanged, after any history
-- whose commands spare it, as long as the drain comes before the message expires.
pub stored_delivered :
    (sha256 : Bytes → Bytes) (id : String) (payload : Bytes) (ttl : ℤ) (random : Bytes)
    (now now' : ℕ) (db : Db) {db' : Db} {m : Message} (cs : List Command)
    → IsOrdered db
    → append_message id payload ttl random now db ≡ ok (m, db')
    → AllSpare sha256 m db' cs
    → format now' < m.expires
    → find_row (λ n. n.id == m.id) (drain_messages id now' (run sha256 cs db')).0 ≡ some m
stored_delivered sha256 id payload ttl random now now' db {db'} cs v e h t =
    drained-found id now' (run sha256 cs _) _ (run-IsOrdered sha256 cs _ appended)
      (run-keeps sha256 _ cs _ h (appended-found id payload ttl random now db e))
      (next_seq db id payload ttl random now e).1 t
  where
    appended : IsOrdered db'
    appended = append_message-IsOrdered id payload ttl random now db v e
