-- ===== src/Store/Acks.antt =====
-- What DeleteMessages and RetireQueue delete, and what they leave.
use sund.Prelude.{◌+◌, ◌≡◌, ◌≢◌, refl, sym, false, List, [], ◌∷◌, String, arith, eq_iff, length}
use sund.Sql.{delete_rows}
use sund.Sql.Laws.{
  select-delete_both, select-delete_rows, count-delete_rows, has_row-delete_rows, select-none,
}
use sund.Store.Tables.{Db, Message}
use sund.Store.Queues.{retire_queue}
use sund.Store.Messages.{in_queue, is_in, is_acked, delete_messages}
use sund.Store.Order.{mailbox}

delete_rows-none : (xs : List Message) → delete_rows (λ m. false) xs ≡ xs
unfolding delete_rows
delete_rows-none [] = refl
delete_rows-none (x ∷ xs) = ground (arith, delete_rows-none xs)

module _ (id : String) (db : Db) where
  -- DeleteMessages takes from the queue exactly the messages whose ids it is given, says how many
  -- of the table's messages it deleted, and leaves every other queue alone.
  pub delete_messages-scoped :
      (ids : List String)
      → (mailbox (delete_messages id ids db).1 id
          ≡ delete_rows (λ m. is_in m.id ids) (mailbox db id))
        × (length (delete_messages id ids db).1.messages + (delete_messages id ids db).0
            ≡ length db.messages)
        × ((other : String)
            → other ≢ id
            → mailbox (delete_messages id ids db).1 other ≡ mailbox db other)
  unfolding delete_messages mailbox is_in
  delete_messages-scoped [] = (sym (delete_rows-none (mailbox db id)), omega arith, λ other h. refl)
  delete_messages-scoped (i ∷ ids) = (
    select-delete_both (in_queue id) (λ m. is_in m.id (i ∷ ids)) db.messages,
    count-delete_rows (is_acked id (i ∷ ids)) db.messages,
    λ other h.
        select-delete_rows (in_queue other) (is_acked id (i ∷ ids))
          (λ m e. ground (arith, eq_iff m.queue_id id, eq_iff m.queue_id other, h)) db.messages,
  )

  -- RetireQueue leaves no message in the queue, and every other queue alone.
  pub retire_queue-empties :
      (mailbox (retire_queue id db) id ≡ [])
      × ((other : String) → other ≢ id → mailbox (retire_queue id db) other ≡ mailbox db other)
  unfolding retire_queue mailbox
  retire_queue-empties = (
    select-none (in_queue id) _ (has_row-delete_rows (in_queue id) db.messages),
    λ other h.
        select-delete_rows (in_queue other) (in_queue id)
          (λ m e. ground (arith, eq_iff m.queue_id id, eq_iff m.queue_id other, h)) db.messages,
  )
