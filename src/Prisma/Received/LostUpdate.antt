-- ===== src/Prisma/Received/LostUpdate.antt =====
-- Failures of a message in the Prisma inbox storage: one that runs alone, and two that overlap.
use cap_nodejs.Prelude.{ℕ, ◌+◌, String, Bool, some, [], ◌∷◌, ◌≡◌, refl, sym, subst, arith}
use cap_nodejs.JsValue.{Value, Headers, Thrown}
use cap_nodejs.Model.{MarkReceivedFailedOptions}
use cap_nodejs.Sql.{Update, Executes, updated}
use cap_nodejs.Inbox
use cap_nodejs.Prisma.Received.{
  set_failure, ReceivedRow, ReceivedTable, map_received_row, failure_update, find_received_row,
  write_failure, mark_received_failed,
}

module _ (in_order : Bool) (execute : Update ReceivedRow → ReceivedTable → ℕ × ReceivedTable)
    (documented : Executes in_order execute) where
  -- The row of the id after the write, by the row that was seen
  find-updated :
      (id : String) (err : Thrown) (o : MarkReceivedFailedOptions) (seen : ReceivedRow)
      (t : ReceivedTable) (r : ReceivedRow)
      → find_received_row id t ≡ some r
      → find_received_row id (updated in_order (failure_update id err o seen) t)
        ≡ some (set_failure err o seen r r)
  unfolding failure_update
  find-updated id err o seen [] r found = absurd (ground (arith, found))
  find-updated id err o seen (x ∷ t) r found = ground (arith, found, find-updated id err o seen t r)

  find-write_failure :
      (id : String) (err : Thrown) (o : MarkReceivedFailedOptions) (seen : ReceivedRow)
      (t : ReceivedTable) (r : ReceivedRow)
      → find_received_row id t ≡ some r
      → find_received_row id (write_failure execute id err o (some seen) t)
        ≡ some (set_failure err o seen r r)
  unfolding write_failure
  find-write_failure id err o seen t r found =
      subst (λ x. find_received_row id x.1 ≡ some (set_failure err o seen r r))
        (sym (documented (failure_update id err o seen) t)) (find-updated id err o seen t r found)

  -- A failure that runs alone leaves the row of the event that the in-memory storage leaves: one more attempt, and
  -- the status and the retry that follow from it.
  pub mark_received_failed_alone :
      (parse : String → Value) (parse_headers : String → Headers) (id : String) (err : Thrown)
      (o : MarkReceivedFailedOptions) (t : ReceivedTable) (r : ReceivedRow)
      → find_received_row id t ≡ some r
      → (r' : ReceivedRow) × (find_received_row id (mark_received_failed execute id err o t)
          ≡ some r')
        × (map_received_row parse parse_headers r'
            ≡ Inbox.failed_once err o (map_received_row parse parse_headers r))
  unfolding mark_received_failed map_received_row
  mark_received_failed_alone parse parse_headers id err o t r found = (
    set_failure err o r r r,
    subst
        (λ seen.
          find_received_row id (write_failure execute id err o seen t)
          ≡ some (set_failure err o r r r))
        (sym found) (find-write_failure id err o r t r found),
    ground arith,
  )

  -- Of two failures of a message that both read its row before either writes, one is lost: the row counts one
  -- attempt more than before, and not two.
  pub overlapping_failures_count_once :
      (id : String) (err err' : Thrown) (o o' : MarkReceivedFailedOptions) (t : ReceivedTable)
      (r : ReceivedRow)
      → find_received_row id t ≡ some r
      → let seen = find_received_row id t in
        let first = write_failure execute id err o seen t in
        let second = write_failure execute id err' o' seen first in
        (r' : ReceivedRow) × (find_received_row id second ≡ some r')
        × (r'.retry_count ≡ r.retry_count + 1)
  overlapping_failures_count_once id err err' o o' t r found =
      let once = set_failure err o r r r in
      (
        set_failure err' o' r once once,
        subst
            (λ seen.
              find_received_row id
                (write_failure execute id err' o' seen (write_failure execute id err o seen t))
              ≡ some (set_failure err' o' r once once))
            (sym found)
            (find-write_failure id err' o' r (write_failure execute id err o (some r) t) once
              (find-write_failure id err o r t r found)),
        refl,
      )
