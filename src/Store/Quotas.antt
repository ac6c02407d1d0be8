-- ===== src/Store/Quotas.antt =====
-- internal/store/store.go: SetDeviceQuota, DeviceStoredBytes, SetQueueQuota.
use sund.Prelude.{ℕ, Bool, not, ◌&&◌, String, ◌==◌, ℤ, nat_eq, if◌then◌else◌}
use sund.Sql.{update, count}
use sund.Store.Tables.{Db, Device, Queue, Tx, ok, err, quota_not_changed, format}
use sund.Store.Messages.{device_used}

abbrev pub is_live_device : String → Device → Bool
is_live_device id d = d.id == id && not d.revoked

-- SetDeviceQuota
unfoldable pub set_device_quota : String → ℤ → Tx (Unit {0})
set_device_quota id bytes db =
    if nat_eq (count (is_live_device id) db.devices) 0
    then err quota_not_changed
    else ok (
      tt,
      record db {
        devices = update (is_live_device id) (λ d. record d { quota_bytes = bytes }) db.devices;
      },
    )

-- DeviceStoredBytes
unfoldable pub device_stored_bytes : Db → String → ℕ → ℕ
unfolding device_used
device_stored_bytes db id now = device_used db id (format now)

abbrev pub is_live_queue : String → Queue → Bool
is_live_queue id q = q.recipient_id == id && not q.retired

-- SetQueueQuota
unfoldable pub set_queue_quota : String → ℤ → Tx (Unit {0})
set_queue_quota id bytes db =
    if nat_eq (count (is_live_queue id) db.queues) 0
    then err quota_not_changed
    else ok (
      tt,
      record db {
        queues = update (is_live_queue id) (λ q. record q { quota_bytes = bytes }) db.queues;
      },
    )
