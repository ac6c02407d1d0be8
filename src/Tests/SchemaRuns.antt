-- ===== src/Tests/SchemaRuns.antt =====
-- The theorem on migrations at a concrete input.
use sund.Prelude.{◌≡◌, refl, Option, none, some, [], ◌∷◌}
use sund.Store.Schema.{
  Catalog, column_in, has_table, has_column, has_index, add_column, without_column, remove_column,
  create_table, create_index, ensure_column, drop_column, change, change_all, migrate,
}
use sund.Store.Schema.Settled.{migrate-migrate}

-- A database of an older binary: accounts have no quota in bytes, messages have a status.
abbrev older : Catalog
older = record {
  tables =
      record {
        name = "accounts";
        columns = ("id", "TEXT PRIMARY KEY") ∷ ("created", "TEXT NOT NULL") ∷ [];
      }
      ∷ record {
        name = "messages";
        columns = ("seq", "INTEGER") ∷ ("status", "TEXT") ∷ ("queue_id", "TEXT") ∷ [];
      }
      ∷ [];
  indexes = "idx_messages_queue" ∷ [];
}

abbrev migrated : Option Catalog → Catalog
migrated none = older
migrated (some c) = c

migrate-migrate_example : migrate (migrated (migrate older)) ≡ some (migrated (migrate older))
unfolding column_in has_table has_column has_index add_column without_column remove_column
    create_table create_index ensure_column drop_column change change_all migrate
migrate-migrate_example = migrate-migrate older (migrated (migrate older)) refl
