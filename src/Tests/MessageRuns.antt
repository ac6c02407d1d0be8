-- ===== src/Tests/MessageRuns.antt =====
-- The theorems on messages and statements at concrete inputs.
use sund.Prelude.{
  ◌+◌, suc, ◌*◌, ◌<◌, ◌≤◌, ◌≡◌, ◌≢◌, ◌⊎◌, ◌↔◌, refl, length, List, [], ◌∷◌, ◌++◌, String, ◌==◌, hex,
  pos, some, arith, All, leb, ltb,
}
use sund.Sql.{find_row, update, count, has_row, select, delete_rows, total}
use sund.Sql.Ascending.{Ascending}
use sund.Store.Tables.{
  Db, Account, Message, Statement, empty_db, new_id, second, format, ok, err, quota_exceeded,
}
use sund.Store.Accounts.{create_account, resolve_quota, quota_bytes_for_class}
use sund.Store.Invitations.{create_invitation, granted_role, hash_token}
use sund.Store.Devices.{register_device, consume, enroll, insert_device, registered_role}
use sund.Store.Queues.{create_queue, retire_queue}
use sund.Store.Messages.{
  append_message, insert_message, resolve, over_quota, queue_used, device_used, account_used,
  drain_messages, delete_messages, is_in,
}
use sund.Store.Statements.{
  append_statement, log_statement, last_seq, list_statements, max_statements_per_account,
}
use sund.Store.Commands.{Command, execute, run}
use sund.Store.Ceilings.{Within, Breaks, append-Within, append_refused}
use sund.Store.Order.{
  mailbox, append_message-IsOrdered, append_message-last, drain_messages-in_order,
}
use sund.Store.Delivery.{stored_delivered}
use sund.Store.Log.{log_of, run-log_bounded, append_statement-logs}
use sund.Store.Acks.{delete_messages-scoped, retire_queue-empties}
use sund.Tests.World.{world, hash, minute, first_device, queue, world-IsOrdered}

abbrev account : Account
account = record {
  id = "acc_01";
  created = 1;
  quota = "free";
  status = "active";
  quota_bytes = pos 67108864;
  admin_mode = "managed";
}

abbrev message : Message
message = record {
  seq = 1;
  id = "msg_05";
  queue_id = "rcp_03";
  payload = 7 ∷ 7 ∷ [];
  received_at = 2;
  expires = 62;
}

-- The world with a message in its queue.
abbrev busy : Db
busy = insert_message message world

stored :
    append_message "rcp_03" (7 ∷ 7 ∷ []) (pos minute) (5 ∷ []) (2 * second) world
    ≡ ok (message, busy)
unfolding find_row update count has_row new_id create_account resolve_quota quota_bytes_for_class
    create_invitation granted_role hash_token register_device consume enroll insert_device
    registered_role create_queue execute run hex append_message insert_message resolve over_quota
    queue_used device_used account_used total
stored = refl

append-Within_example :
    Within world "rcp_03"
      (7 ∷ 7 ∷ [])
      (pos minute)
      (5 ∷ [])
      (2 * second)
      busy
      queue
      first_device
      account
unfolding find_row update count has_row new_id create_account resolve_quota quota_bytes_for_class
    create_invitation granted_role hash_token register_device consume enroll insert_device
    registered_role create_queue execute run hex append_message insert_message resolve over_quota
    queue_used device_used account_used total
append-Within_example =
    append-Within world "rcp_03" (7 ∷ 7 ∷ []) (pos minute) (5 ∷ []) (2 * second) stored queue
      first_device account refl

append_refused_example :
    (append_message "rcp_03" (7 ∷ 7 ∷ []) (pos minute) (5 ∷ []) (2 * second) world
      ≡ err quota_exceeded)
    ↔ (Breaks (pos 0) (queue_used world "rcp_03" 2 + 2)
        ⊎ (Breaks (pos 0) (device_used world "dev_01" 2 + 2)
            ⊎ Breaks (pos 67108864) (account_used world "acc_01" 2 + 2)))
unfolding find_row update count has_row new_id create_account resolve_quota quota_bytes_for_class
    create_invitation granted_role hash_token register_device consume enroll insert_device
    registered_role create_queue execute run hex resolve
append_refused_example =
    append_refused world "rcp_03" (7 ∷ 7 ∷ []) (pos minute) (5 ∷ []) (2 * second) queue first_device
      account refl

append_message-last_example :
    (mailbox busy "rcp_03" ≡ mailbox world "rcp_03" ++ message ∷ [])
    × ((other : String) → other ≢ "rcp_03" → mailbox busy other ≡ mailbox world other)
    × All (λ n. n.seq < 1) world.messages
unfolding find_row update count has_row new_id create_account resolve_quota quota_bytes_for_class
    create_invitation granted_role hash_token register_device consume enroll insert_device
    registered_role create_queue execute run hex append_message insert_message resolve over_quota
    queue_used device_used account_used total
append_message-last_example =
    append_message-last "rcp_03" (7 ∷ 7 ∷ []) (pos minute) (5 ∷ []) (2 * second) world
      world-IsOrdered stored

stored_delivered_example :
    find_row
      (λ n. n.id == "msg_05")
      (drain_messages "rcp_03"
        (3 * second)
        (run hash (Command.touches "dev_01" (2 * second) ∷ []) busy)).0
    ≡ some message
unfolding find_row update count has_row new_id create_account resolve_quota quota_bytes_for_class
    create_invitation granted_role hash_token register_device consume enroll insert_device
    registered_role create_queue execute run hex append_message insert_message resolve over_quota
    queue_used device_used account_used total
stored_delivered_example =
    stored_delivered hash "rcp_03" (7 ∷ 7 ∷ []) (pos minute) (5 ∷ []) (2 * second) (3 * second)
      world (Command.touches "dev_01" (2 * second) ∷ []) world-IsOrdered stored (refl, tt)
      (omega arith)

drain_messages-in_order_example :
    ((drain_messages "rcp_03" (2 * second) busy).0
      ≡ delete_rows (λ m. leb m.expires (format (2 * second))) (mailbox busy "rcp_03"))
    × (mailbox (drain_messages "rcp_03" (2 * second) busy).1 "rcp_03"
        ≡ (drain_messages "rcp_03" (2 * second) busy).0)
    × ((other : String)
        → other ≢ "rcp_03"
        → mailbox (drain_messages "rcp_03" (2 * second) busy).1 other ≡ mailbox busy other)
drain_messages-in_order_example = drain_messages-in_order "rcp_03" (2 * second) busy (
    append_message-IsOrdered "rcp_03" (7 ∷ 7 ∷ []) (pos minute) (5 ∷ []) (2 * second) world
      world-IsOrdered stored)

delete_messages-scoped_example :
    (mailbox (delete_messages "rcp_03" ("msg_05" ∷ []) busy).1 "rcp_03"
      ≡ delete_rows (λ m. is_in m.id ("msg_05" ∷ [])) (mailbox busy "rcp_03"))
    × (length (delete_messages "rcp_03" ("msg_05" ∷ []) busy).1.messages
          + (delete_messages "rcp_03" ("msg_05" ∷ []) busy).0
        ≡ length busy.messages)
    × ((other : String)
        → other ≢ "rcp_03"
        → mailbox (delete_messages "rcp_03" ("msg_05" ∷ []) busy).1 other ≡ mailbox busy other)
delete_messages-scoped_example = delete_messages-scoped "rcp_03" busy ("msg_05" ∷ [])

abbrev writing : List Command
writing =
    Command.creates_account "free" (pos 0) "flat" second (1 ∷ [])
    ∷ Command.states "acc_01" (7 ∷ []) second
    ∷ Command.states "acc_01" (8 ∷ []) second
    ∷ []

run-log_bounded_example :
    (length (log_of "acc_01" (run hash writing empty_db).statements) ≤ max_statements_per_account)
    × Ascending (λ s. s.seq) 1 (list_statements (run hash writing empty_db) "acc_01" 1)
    × (list_statements (run hash writing empty_db) "acc_01" 1
        ≡ select (λ s. ltb 1 s.seq) (log_of "acc_01" (run hash writing empty_db).statements))
run-log_bounded_example = run-log_bounded hash "acc_01" writing 1

abbrev entry : Statement
entry = record { account_id = "acc_01"; seq = 1; blob = 7 ∷ []; created = 1 }

append_statement-logs_example :
    (1 ≡ suc (last_seq "acc_01" world.statements))
    × (log_of "acc_01" (log_statement entry world).statements
        ≡ delete_rows
            (λ t. leb (t.seq + max_statements_per_account) 1)
            (log_of "acc_01" world.statements ++ entry ∷ []))
    × ((other : String)
        → "acc_01" ≢ other
        → log_of other (log_statement entry world).statements ≡ log_of other world.statements)
unfolding find_row update count has_row new_id create_account resolve_quota quota_bytes_for_class
    create_invitation granted_role hash_token register_device consume enroll insert_device
    registered_role create_queue execute run hex append_statement log_statement last_seq
append_statement-logs_example = append_statement-logs "acc_01" (7 ∷ []) second world refl

retire_queue-empties_example :
    (mailbox (retire_queue "rcp_03" busy) "rcp_03" ≡ [])
    × ((other : String)
        → other ≢ "rcp_03"
        → mailbox (retire_queue "rcp_03" busy) other ≡ mailbox busy other)
retire_queue-empties_example = retire_queue-empties "rcp_03" busy
