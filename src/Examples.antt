-- ===== src/Examples.antt =====
-- Concrete inputs on which the theorems of the library apply: a Redis server in memory, and one
-- module of examples per component.
pub mod Memory
pub mod Limits
pub mod Challenges
pub mod Clients
pub mod Deployment
pub mod Engine
pub mod Addresses
pub mod Requests
pub mod Forms
pub mod Orm
pub mod Anomalies
pub mod Cookies
