-- ===== src/Store/Schema.antt =====
-- internal/store/store.go: the schema and the migrations (migrate, ensureColumn, dropColumn,
-- hasColumn). A database is here its catalog: its tables with their columns, and its
-- indexes.
mod Columns
pub mod Settled
use Prim.Native.Char.{code}
use sund.Prelude.{
  ◌≡◌, refl, nat_eq, Bool, true, false, not, ◌&&◌, ◌||◌, Option, none, some, List, [], ◌∷◌, ◌++◌,
  String, ◌<>◌, ◌==◌, if◌then◌else◌,
}

-- A column: its name, and its type with its constraints.
abbrev pub Column : Type 0
Column = String × String

pub record Table : Type 0 where
  pub name : String
  pub columns : List Column

pub record Catalog : Type 0 where
  pub tables : List Table
  pub indexes : List String

unfoldable pub column_in : String → List Column → Bool
column_in column [] = false
column_in column (c ∷ cs) = c.0 == column || column_in column cs

unfoldable pub has_table : String → List Table → Bool
has_table table [] = false
has_table table (t ∷ ts) = t.name == table || has_table table ts

-- hasColumn
unfoldable pub has_column : String → String → List Table → Bool
unfolding column_in
has_column table column [] = false
has_column table column (t ∷ ts) =
    t.name == table && column_in column t.columns || has_column table column ts

unfoldable pub has_index : String → List String → Bool
has_index index [] = false
has_index index (i ∷ is) = i == index || has_index index is

-- ALTER TABLE ADD COLUMN
unfoldable pub add_column : String → Column → List Table → List Table
add_column table column [] = []
add_column table column (t ∷ ts) =
    let rest = add_column table column ts in
    if t.name == table then record t { columns = t.columns ++ column ∷ [] } ∷ rest else t ∷ rest

unfoldable pub without_column : String → List Column → List Column
without_column column [] = []
without_column column (c ∷ cs) =
    let rest = without_column column cs in if c.0 == column then rest else c ∷ rest

-- ALTER TABLE DROP COLUMN, of a column that no index is on.
unfoldable pub remove_column : String → String → List Table → List Table
unfolding without_column
remove_column table column [] = []
remove_column table column (t ∷ ts) =
    let rest = remove_column table column ts in
    if t.name == table
    then record t { columns = without_column column t.columns } ∷ rest
    else t ∷ rest

-- The statements of a migration.
pub data Change : Type 0 where
  creates_table : String → List Column → Change
  creates_index : String → String → String → Change
  ensures_column : String → String → String → Change
  drops_column : String → String → Change

-- CREATE TABLE IF NOT EXISTS
unfoldable pub create_table : String → List Column → Catalog → Catalog
create_table table columns c =
    if has_table table c.tables
    then c
    else record c { tables = c.tables ++ record { name = table; columns = columns } ∷ [] }

-- CREATE INDEX IF NOT EXISTS: a new index needs its column.
unfoldable pub create_index : String → String → String → Catalog → Option Catalog
create_index index table column c =
    if has_index index c.indexes
    then some c
    else if has_column table column c.tables
    then some (record c { indexes = c.indexes ++ index ∷ [] })
    else none

-- ensureColumn: a column cannot be added to a table that is not there.
unfoldable pub ensure_column : String → String → String → Catalog → Option Catalog
ensure_column table column ddl c =
    if has_column table column c.tables
    then some c
    else if has_table table c.tables
    then some (record c { tables = add_column table (column, ddl) c.tables })
    else none

-- dropColumn
unfoldable pub drop_column : String → String → Catalog → Catalog
drop_column table column c =
    if not (has_column table column c.tables)
    then c
    else record c { tables = remove_column table column c.tables }

unfoldable pub change : Change → Catalog → Option Catalog
unfolding create_table create_index ensure_column drop_column
change (creates_table table columns) c = some (create_table table columns c)
change (creates_index index table column) c = create_index index table column c
change (ensures_column table column ddl) c = ensure_column table column ddl c
change (drops_column table column) c = some (drop_column table column c)

unfoldable pub change_all : List Change → Catalog → Option Catalog
unfolding change
change_all [] c = some c
change_all (x ∷ xs) c = elim (change x c) [ none ↦ none | some d ↦ change_all xs d ]

-- The constant `schema`.
abbrev pub schema : List Change
schema =
    creates_table "accounts" (
      ("id", "TEXT PRIMARY KEY")
      ∷ ("created", "TEXT NOT NULL")
      ∷ ("quota", "TEXT NOT NULL")
      ∷ ("status", "TEXT NOT NULL DEFAULT 'active'")
      ∷ ("quota_bytes", "INTEGER NOT NULL DEFAULT 0")
      ∷ ("admin_mode", "TEXT NOT NULL DEFAULT 'flat'")
      ∷ [])
    ∷ creates_table "invitations" (
        ("token_hash", "TEXT PRIMARY KEY")
        ∷ ("id", "TEXT NOT NULL DEFAULT ''")
        ∷ ("account_id", "TEXT NOT NULL REFERENCES accounts(id)")
        ∷ ("created", "TEXT NOT NULL")
        ∷ ("expires", "TEXT NOT NULL")
        ∷ ("consumed", "INTEGER NOT NULL DEFAULT 0")
        ∷ ("revoked", "INTEGER NOT NULL DEFAULT 0")
        ∷ ("grants_role", "TEXT NOT NULL DEFAULT 'member'")
        ∷ [])
    ∷ creates_index "idx_invitations_account" "invitations" "account_id"
    ∷ creates_table "devices" (
        ("id", "TEXT PRIMARY KEY")
        ∷ ("account_id", "TEXT NOT NULL REFERENCES accounts(id)")
        ∷ ("public_key", "BLOB NOT NULL")
        ∷ ("push_endpoint", "TEXT NOT NULL DEFAULT ''")
        ∷ ("capabilities", "TEXT NOT NULL DEFAULT ''")
        ∷ ("created", "TEXT NOT NULL")
        ∷ ("last_seen", "TEXT NOT NULL")
        ∷ ("revoked", "INTEGER NOT NULL DEFAULT 0")
        ∷ ("quota_bytes", "INTEGER NOT NULL DEFAULT 0")
        ∷ ("role", "TEXT NOT NULL DEFAULT 'admin'")
        ∷ [])
    ∷ creates_index "idx_devices_account" "devices" "account_id"
    ∷ creates_table "queues" (
        ("recipient_id", "TEXT PRIMARY KEY")
        ∷ ("sender_id", "TEXT NOT NULL UNIQUE")
        ∷ ("owner_device", "TEXT NOT NULL REFERENCES devices(id)")
        ∷ ("recipient_key", "BLOB NOT NULL")
        ∷ ("sender_key", "BLOB")
        ∷ ("created", "TEXT NOT NULL")
        ∷ ("retired", "INTEGER NOT NULL DEFAULT 0")
        ∷ ("quota_bytes", "INTEGER NOT NULL DEFAULT 0")
        ∷ [])
    ∷ creates_index "idx_queues_sender" "queues" "sender_id"
    ∷ creates_index "idx_queues_owner" "queues" "owner_device"
    ∷ creates_table "messages" (
        ("seq", "INTEGER PRIMARY KEY AUTOINCREMENT")
        ∷ ("id", "TEXT NOT NULL UNIQUE")
        ∷ ("queue_id", "TEXT NOT NULL REFERENCES queues(recipient_id)")
        ∷ ("payload", "BLOB NOT NULL")
        ∷ ("received_at", "TEXT NOT NULL")
        ∷ ("expires", "TEXT NOT NULL")
        ∷ [])
    ∷ creates_index "idx_messages_queue" "messages" "queue_id"
    ∷ creates_table "bundles" (
        ("device_id", "TEXT PRIMARY KEY REFERENCES devices(id)")
        ∷ ("blob", "BLOB NOT NULL")
        ∷ ("updated", "TEXT NOT NULL")
        ∷ [])
    ∷ creates_table "statements" (
        ("account_id", "TEXT NOT NULL REFERENCES accounts(id)")
        ∷ ("seq", "INTEGER NOT NULL")
        ∷ ("blob", "BLOB NOT NULL")
        ∷ ("created", "TEXT NOT NULL")
        ∷ [])
    ∷ []

-- What follows the schema in migrate.
abbrev pub later_changes : List Change
later_changes =
    ensures_column "accounts" "quota_bytes" "INTEGER NOT NULL DEFAULT 0"
    ∷ ensures_column "invitations" "id" "TEXT NOT NULL DEFAULT ''"
    ∷ ensures_column "invitations" "revoked" "INTEGER NOT NULL DEFAULT 0"
    ∷ creates_index "idx_invitations_id" "invitations" "id"
    ∷ ensures_column "accounts" "admin_mode" "TEXT NOT NULL DEFAULT 'flat'"
    ∷ ensures_column "devices" "role" "TEXT NOT NULL DEFAULT 'admin'"
    ∷ ensures_column "invitations" "grants_role" "TEXT NOT NULL DEFAULT 'member'"
    ∷ ensures_column "devices" "quota_bytes" "INTEGER NOT NULL DEFAULT 0"
    ∷ ensures_column "queues" "quota_bytes" "INTEGER NOT NULL DEFAULT 0"
    ∷ drops_column "messages" "status"
    ∷ []

-- migrate
unfoldable pub migrate : Catalog → Option Catalog
unfolding change_all
migrate c = change_all (schema ++ later_changes) c
