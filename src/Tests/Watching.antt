-- ===== src/Tests/Watching.antt =====
-- The dashboard over a small outbox.
use cap_nodejs.Prelude.{ℕ, String, true, List, [], ◌∷◌, ◌≡◌, ◌≤◌, ◌+◌, refl, All, length}
use cap_nodejs.JsValue.{Value, field, end}
use cap_nodejs.Text.{split_dots}
use cap_nodejs.Engine.{World}
use cap_nodejs.Outbox
use cap_nodejs.Outbox.{lock}
use cap_nodejs.Engine.Outgoing.{emit}
use cap_nodejs.Dashboard.{Settings}
use cap_nodejs.Dashboard.Redaction.{redact_payload}
use cap_nodejs.Dashboard.Redaction.Hidden.{IsHidden, at_path, redact_payload_hides}
use cap_nodejs.Dashboard.Flush.{
  flush_batch, flush_one, emit_for_flush, settle_flushed, renew_dashboard_claim,
  dashboard_heartbeat,
}
use cap_nodejs.Dashboard.Flush.Counts.{flush_batch_counts}
use cap_nodejs.Tests.Publishing.{two_events, waiting, claim_one}
use cap_nodejs.Tests.Dispatching.{quiet, config}

abbrev settings : Settings
settings = record {
  read_only = true;
  max_page_size = 1;
  redact = record { headers = []; payload_paths = [] };
  max_retries = 3;
  has_publisher = true;
  has_retry_handler = true;
  has_renew = true;
}

abbrev show_number : ℕ → String
show_number n = "0"

abbrev lower : String → String
lower s = s

abbrev start : World
start = record {
  moment = 0;
  outbox = two_events;
  inbox = record { store = []; dedupe = [] };
  emissions = [];
  handled = [];
  diagnostics = [];
}

abbrev card : Value
card =
    Value.object true
      (field "user" (Value.object true (field "card" (Value.string "4111") end)) end)

abbrev paths : List String
paths = "user.card" ∷ "user" ∷ []

redact_payload_hides_example :
    All
      (λ p.
        IsHidden show_number
          (at_path show_number (split_dots p) (redact_payload show_number paths card)))
      paths
redact_payload_hides_example = redact_payload_hides show_number paths card (refl, (refl, tt))

abbrev claimed : World
claimed = record start { outbox = ("1", lock claim_one (waiting "1")) ∷ [] }

abbrev after : World
after =
    (flush_batch quiet settings show_number lower config "a" (lock claim_one (waiting "1") ∷ []) 0 0
      claimed).1

flush_batch_counts_example : (1 + 0 ≡ 0 + 0 + 1) × (1 + 0 ≤ 0 + length after.emissions)
unfolding flush_batch flush_one emit_for_flush settle_flushed renew_dashboard_claim
    dashboard_heartbeat emit Outbox.renew_publish_claim Outbox.can_renew Outbox.mark_published
    Outbox.owns_claim
flush_batch_counts_example =
    flush_batch_counts quiet settings show_number lower config "a"
      (lock claim_one (waiting "1") ∷ []) 0 0 claimed 1 0 refl
