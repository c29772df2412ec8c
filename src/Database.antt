-- ===== src/Database.antt =====
-- The storage layer, src/database: the models, and the repositories over tables of rows.
-- A table is the list of its rows in the order of their primary keys. A repository's SQL statement
-- is the function on that list that the statement denotes: `select` for WHERE, `sort_by` for ORDER
-- BY, `take` for LIMIT, a `map` for UPDATE. Times are counted in microseconds.
pub mod Query
pub mod Table
pub mod Tasks
pub mod Messages
pub mod Servers
pub mod Agents
pub mod Scenarios
