-- ===== src/Collide.antt =====
-- The route that sends a duplicate commitment (frontend/app/api/collide/route.ts): Attempt has
-- `collide`, Server the state of the module and `POST`.
pub mod Attempt
pub mod Server
