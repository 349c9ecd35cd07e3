-- ===== src/Db/Queries.antt =====
-- What a query of the pool keeps and comes to, from what its statement keeps and comes to.
use clearbook.Prelude.{ℕ, ◌≡◌, ◌⊎◌, inl, inr, refl}
use clearbook.Text.{Text}
use clearbook.Async.{resolved, rejected, Exec, read}
use clearbook.Db.{Db, PoolReply, answers, fails_before, fails_after}
use clearbook.Db.Pool.{asked_once, reply_of, query}

-- The pool answers every query.
abbrev pub IsUp : Db → Type 0
IsUp db = (n : ℕ) → db.pool n ≡ answers

module _ {A : Type 0} (statement : Exec Text Db A) where
  reply_of-kept :
      (P : Db → Type 0) (reply : PoolReply) (db : Db)
      → P db
      → P (statement db).1
      → P (reply_of reply statement db).1
  reply_of-kept P answers db h k = k
  reply_of-kept P (fails_before e) db h k = h
  reply_of-kept P (fails_after e) db h k = k

  -- A property that does not depend on the number of queries.
  pub query-kept :
      (P : Db → Type 0) (db : Db)
      → P (asked_once db)
      → P (statement (asked_once db)).1
      → P (query statement db).1
  query-kept P db h k = reply_of-kept P (db.pool db.asked) (asked_once db) h k

  reply_of-resolved :
      (reply : PoolReply) (db : Db) (a : A)
      → (reply_of reply statement db).0 ≡ resolved a
      → ((statement db).0 ≡ resolved a) × ((reply_of reply statement db).1 ≡ (statement db).1)
  reply_of-resolved answers db a h = (h, refl)
  reply_of-resolved (fails_before e) db a h = cc
  reply_of-resolved (fails_after e) db a h = cc

  -- Where a query returns, so did its statement.
  pub query-resolved :
      (db : Db) (a : A)
      → (query statement db).0 ≡ resolved a
      → ((statement (asked_once db)).0 ≡ resolved a)
        × ((query statement db).1 ≡ (statement (asked_once db)).1)
  query-resolved db a h = reply_of-resolved (db.pool db.asked) (asked_once db) a h

  pub query-up : (db : Db) → IsUp db → query statement db ≡ statement (asked_once db)
  query-up db up = rw (up db.asked) refl

module _ {A : Type 0} (f : Db → A) where
  reply_of-read :
      (reply : PoolReply) (db : Db)
      → ((e : Text) × (reply_of reply (read f) db ≡ (rejected e, db)))
        ⊎ (reply_of reply (read f) db ≡ (resolved (f db), db))
  reply_of-read answers db = inr refl
  reply_of-read (fails_before e) db = inl (e, refl)
  reply_of-read (fails_after e) db = inl (e, refl)

  -- A query that reads throws, or it gives what it reads.
  pub query-read :
      (db : Db)
      → ((e : Text) × (query (read f) db ≡ (rejected e, asked_once db)))
        ⊎ (query (read f) db ≡ (resolved (f (asked_once db)), asked_once db))
  query-read db = reply_of-read (db.pool db.asked) (asked_once db)
