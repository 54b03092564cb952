-- ===== src/AppServer.antt =====
-- The app-server plane (src/app-server).
pub mod Pagination
pub mod Mutation
pub mod Submit
pub mod Events
