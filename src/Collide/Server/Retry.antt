-- ===== src/Collide/Server/Retry.antt =====
-- A caller that is made to wait is let in after the waits that it is told.
use clearbook.Prelude.{ℕ, ◌+◌, ◌≡◌, ◌⊎◌, none, some, arith, Option-cases, inl, inr}
use clearbook.Text.{Text}
use clearbook.Collide.Server.{Server, with_window, wait_of, limited}

-- With no other request in between, a caller that is told to wait and comes back a millisecond after
-- this is let in, or is told a second wait and is let in right after that one.
pub limited-admits :
    (ip : Text) (now wait : ℕ) (s : Server)
    → (limited ip now s).0 ≡ some wait
    → let s' = (limited ip now s).1 in
      let again = limited ip (now + wait + 1) s' in
      (again.0 ≡ none)
      ⊎ ((second : ℕ) × (again.0 ≡ some second)
          × ((limited ip (now + wait + 1 + second) again.1).0 ≡ none))
unfolding limited
limited-admits ip now wait s told =
    elim (Option-cases
      (wait_of ip (now + wait + 1) (with_window (now + wait + 1) (with_window now s)))) [
        | inl free ↦ inl free
        | inr (second, e) ↦ inr (second, e, ground arith)
      ]
