-- ===== src/Db/Pool.antt =====
-- The methods of the class `Db` (worker/src/db.ts): each asks the connection pool to run its statement.
-- The pool is not part of the repository; of a query it gives the statement's result, or it throws,
-- be it before the statement has run or after it has, when only the reply is lost.
use clearbook.Prelude.{ℕ, ◌+◌, Bool, true, false, Option, List}
use clearbook.Text.{Text}
use clearbook.Async.{resolved, rejected, Exec, pure, read, catch}
use clearbook.Db
use clearbook.Db.{
  PoolReply, answers, fails_before, fails_after, FactState, FactRow, LatencySample, Discovery,
  Patch,
}

abbrev pub asked_once : Db.Db → Db.Db
asked_once db = record db { asked = db.asked + 1 }

abbrev pub reply_of : {A : Type 0} → PoolReply → Exec Text Db.Db A → Exec Text Db.Db A
reply_of answers statement db = statement db
reply_of (fails_before e) statement db = (rejected e, db)
reply_of (fails_after e) statement db = (rejected e, (statement db).1)

-- `this.pool.query(…)`
abbrev pub query : {A : Type 0} → Exec Text Db.Db A → Exec Text Db.Db A
query statement db = reply_of (db.pool db.asked) statement (asked_once db)

abbrev pub always : {A : Type 0} → (Db.Db → A × Db.Db) → Exec Text Db.Db A
always f db = let (a, db') = f db in (resolved a, db')

abbrev pub insert_discovered : Discovery → Exec Text Db.Db (Option FactRow)
insert_discovered input = query (always (Db.insert_discovered input))

abbrev pub requeue_stranded : Exec Text Db.Db ℕ
requeue_stranded = query (always Db.requeue_stranded)

abbrev pub claim_next : (FactState → Bool) → ℕ → Exec Text Db.Db (List FactRow)
claim_next wanted limit = query (read (Db.claim_next wanted limit))

abbrev pub set_state : ℕ → FactState → Patch → Exec Text Db.Db (Unit {0})
set_state id state patch = query (Db.set_state id state patch)

abbrev pub record_attempt : ℕ → Text → Exec Text Db.Db (Unit {0})
record_attempt id error = query (Db.record_attempt id error)

abbrev pub count_by_state : Exec Text Db.Db ((FactState → Bool) → Option ℕ)
count_by_state = query (read (λ db. Db.count_by_state db))

abbrev pub get_cursor : ℕ → Exec Text Db.Db (Option ℕ)
get_cursor chain_key = query (read (Db.get_cursor chain_key))

abbrev pub set_cursor : ℕ → ℕ → Exec Text Db.Db (Unit {0})
set_cursor chain_key last_block = query (always (λ db. (tt, Db.set_cursor chain_key last_block db)))

abbrev pub record_latency : LatencySample → Exec Text Db.Db (Unit {0})
record_latency sample = query (always (λ db. (tt, Db.record_latency sample db)))

-- `SELECT 1`, of which a failure is an answer.
abbrev pub ping : Exec Text Db.Db Bool
ping = catch (query (pure true)) (λ e. pure false)
