-- ===== src/Store.antt =====
-- internal/store: the persistence layer. One module for each group of operations, then the
-- histories of commands and what is proved of them.
pub mod Tables
pub mod Schema
pub mod Open
pub mod Accounts
pub mod Invitations
pub mod Devices
pub mod Roles
pub mod Queues
pub mod Messages
pub mod Quotas
pub mod Statements
pub mod Bundles
pub mod Commands
pub mod Shapes
pub mod Forward
pub mod History
pub mod Keyed
pub mod Enrollment
pub mod LastAdmin
pub mod Ceilings
pub mod Order
pub mod Delivery
pub mod Log
pub mod Acks
pub mod Records
