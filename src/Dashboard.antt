-- ===== src/Dashboard.antt =====
-- The dashboard's service, libs/cap-dashboard-core/src/dashboard.service.ts, over the in-memory storages and in the
-- world of Engine: what waits or comes from outside is asked of its `Environment`. Log lines are left out.
-- A page or a limit of a query is a natural number or another number that counts as one or as none.
pub mod Redaction
pub mod ReadOnly
pub mod Flush
use cap_nodejs.Prelude.{
  ℕ, zero, suc, ◌+◌, ◌-◌, ◌*◌, min, max, String, Bool, true, false, not, ◌==◌, Option, none, some,
  List, [], ◌∷◌, if◌then◌else◌, join, map, or_default, opt_eq,
}
use mathlib.Core.Option
use cap_nodejs.JsValue.{Thrown, normalize_error}
use cap_nodejs.Model.{PublishEvent, ReceivedEvent, ListPublishOptions, ListReceivedOptions, Page}
use cap_nodejs.Outbox.{
  Store, find_publish_by_id, mark_published, mark_publish_failed, renew_publish_claim,
  release_expired_claims, claim_unpublished,
}
use cap_nodejs.Outbox.Admin.{list_publish}
use cap_nodejs.Inbox.{Inbox, find_received_by_id, mark_processed}
use cap_nodejs.Inbox.Admin.{list_received}
use cap_nodejs.Engine.{
  Environment, Config, World, Result, ok, thrown, Action, attempt, pure, ◌>>=◌, ◌>>◌, catch, done,
  ask, now, outbox_call, inbox_call,
}
use cap_nodejs.Engine.Outgoing.{emit}
use cap_nodejs.Dashboard.Redaction.{
  RedactOptions, OutboxItem, InboxItem, map_publish_to_outbox_dto, map_received_to_inbox_dto,
}

-- `CapDashboardServiceOptions` and what else the constructor is given
pub record Settings : Type 0 where
  pub read_only : Bool
  pub max_page_size : ℕ
  pub redact : RedactOptions
  pub max_retries : ℕ
  pub has_publisher : Bool
  pub has_retry_handler : Bool
  pub has_renew : Bool

-- `ListQueryDto`
pub record ListQuery : Type 0 where
  pub page : Option ℕ
  pub limit : Option ℕ
  pub topic : Option String
  pub only_unpublished : Bool
  pub due : Bool

-- `OutboxPageDto`, `InboxPageDto`
pub record PageDto (A : Type 0) : Type 0 where
  pub items : List A
  pub total : ℕ
  pub page : ℕ
  pub limit : ℕ

-- `ActionResultDto`
pub record ActionResult : Type 0 where
  pub success : Bool
  pub message : Option String

abbrev pub failure : String → ActionResult
failure message = record { success = false; message = some message }

-- `readOnlyResult`
abbrev pub read_only_result : ActionResult
read_only_result = failure "Dashboard is read-only"

abbrev pub default_list_limit : ℕ
default_list_limit = 50

abbrev pub dashboard_lease_ms : ℕ
dashboard_lease_ms = 30000

-- `resolveLimit`: zero counts as no limit.
unfoldable pub resolve_limit : Settings → Option ℕ → ℕ
resolve_limit o requested =
    let n = or_default requested default_list_limit in
    min (max (if n == 0 then default_list_limit else n) 1) o.max_page_size

module _ (env : Environment) (o : Settings) (show_number : ℕ → String)
    (lower : String → String) where
  abbrev pub failed_with : Thrown → Action ActionResult
  failed_with err = pure (failure (normalize_error err))

  -- The guard of the methods that write, and their `try`
  abbrev pub guarded : Action ActionResult → Action ActionResult
  guarded m = if o.read_only then pure read_only_result else catch m failed_with

  -- `items`, for the page `page`, of a list that is read with a limit and an offset; before the first page there
  -- is nothing, since an offset below zero with the limit makes an empty slice.
  abbrev pub page_of : {A : Type 0} → (Option ℕ → Page A) → ℕ → ℕ → Page A
  page_of list zero limit = record (list (some 0)) { items = [] }
  page_of list (suc p) limit = list (some (p * limit))

  abbrev pub outbox_dto : ListQuery → Page PublishEvent → PageDto OutboxItem
  outbox_dto q p = record {
    items = map (λ e. map_publish_to_outbox_dto show_number lower o.redact e false) p.items;
    total = p.total;
    page = or_default q.page 1;
    limit = resolve_limit o q.limit;
  }

  -- What `listOutbox` reads; `at` is the storage's `new Date()`.
  unfoldable pub read_outbox : ListQuery → ℕ → Store → Page PublishEvent
  unfolding resolve_limit
  read_outbox q at s =
      page_of
        (λ offset.
          list_publish
            (record {
              limit = some (resolve_limit o q.limit);
              offset = offset;
              topic = q.topic;
              only_unpublished = q.only_unpublished;
            })
            at s)
        (or_default q.page 1) (resolve_limit o q.limit)

  -- `listOutbox`: a storage that rejects has an empty page.
  unfoldable pub list_outbox : ListQuery → Action (PageDto OutboxItem)
  unfolding read_outbox
  list_outbox q = now env >>= λ at.
      (catch (outbox_call env (λ s. (read_outbox q at s, s)))
          (λ err. pure (record { items = []; total = 0 }))
        >>= λ p. pure (outbox_dto q p))

  -- `getOutboxById`
  unfoldable pub get_outbox_by_id : String → Bool → Action (Option OutboxItem)
  get_outbox_by_id id full =
      catch
        (outbox_call env (λ s. (
          Option.map (λ e. map_publish_to_outbox_dto show_number lower o.redact e full)
              (find_publish_by_id id s),
          s,
        )))
        (λ err. pure none)

  -- `retryOutbox` of a message that was found
  unfoldable pub retry_found : Config → String → PublishEvent → Action ActionResult
  retry_found c id e =
      if not o.has_publisher then pure (failure "No publisher available to emit message") else do
        emit env c e
        at ← now env
        outbox_call env (mark_published id at none)
        pure (record { success = true; message = some "Published successfully" })

  -- `retryOutbox`
  unfoldable pub retry_outbox : Config → String → Action ActionResult
  retry_outbox c id = guarded (
      outbox_call env (λ s. (find_publish_by_id id s, s)) >>= λ found. elim found [
        | none ↦ pure (failure (join "publish record " (join id " not found")))
        | some e ↦ retry_found c id e
      ])

  -- `markOutboxPublished`
  unfoldable pub mark_outbox_published : String → Action ActionResult
  mark_outbox_published id = guarded do
    at ← now env
    outbox_call env (mark_published id at none)
    pure (record { success = true; message = none })

  abbrev pub inbox_dto : ListQuery → Page ReceivedEvent → PageDto InboxItem
  inbox_dto q p = record {
    items = map (λ e. map_received_to_inbox_dto show_number lower o.redact e false) p.items;
    total = p.total;
    page = or_default q.page 1;
    limit = resolve_limit o q.limit;
  }

  -- What `listInbox` reads
  unfoldable pub read_inbox : ListQuery → ℕ → Inbox → Page ReceivedEvent
  unfolding resolve_limit
  read_inbox q at b =
      page_of
        (λ offset.
          list_received
            (record {
              limit = some (resolve_limit o q.limit);
              offset = offset;
              topic = q.topic;
              due = q.due;
            })
            at b)
        (or_default q.page 1) (resolve_limit o q.limit)

  -- `listInbox`
  unfoldable pub list_inbox : ListQuery → Action (PageDto InboxItem)
  unfolding read_inbox
  list_inbox q = now env >>= λ at.
      (catch (inbox_call env (λ b. (read_inbox q at b, b)))
          (λ err. pure (record { items = []; total = 0 }))
        >>= λ p. pure (inbox_dto q p))

  -- `getInboxById`
  unfoldable pub get_inbox_by_id : String → Bool → Action (Option InboxItem)
  get_inbox_by_id id full =
      catch
        (inbox_call env (λ b. (
          Option.map (λ e. map_received_to_inbox_dto show_number lower o.redact e full)
              (find_received_by_id id b),
          b,
        )))
        (λ err. pure none)

  -- `retryInbox`; `retry` is the retry handler's `retryReceived`.
  unfoldable pub retry_inbox : (ReceivedEvent → Action (Unit {0})) → String → Action ActionResult
  retry_inbox retry id = guarded (
      inbox_call env (λ b. (find_received_by_id id b, b)) >>= λ found. elim found [
        | none ↦ pure (failure (join "received record " (join id " not found")))
        | some rec ↦
            if not o.has_retry_handler
            then pure (failure "Retry handler not available to retry inbox message")
            else (retry rec
                >> pure (record { success = true; message = some "Retry scheduled/executed" }))
      ])

  -- `markInboxProcessed`
  unfoldable pub mark_inbox_processed : String → Action ActionResult
  mark_inbox_processed id = guarded do
    at ← now env
    inbox_call env (λ b. (tt, mark_processed id at b))
    pure (record { success = true; message = none })
