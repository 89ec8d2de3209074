-- ===== src/Inbox/Due.antt =====
-- Which events `getRetryDue` returns, and in which order.
use mathlib.Core.List.{Perm}
use mathlib.Core.List.Perm
use cap_nodejs.Prelude.{ℕ, ◌≤◌, List, [], ◌∷◌, All}
use cap_nodejs.Model.{ReceivedEvent}
use cap_nodejs.Inbox.{Inbox, due_time}

-- Every event of the list is due no earlier than `t`.
abbrev pub AllAfter : ℕ → List ReceivedEvent → Type 0
AllAfter t = All λ e. t ≤ due_time e

abbrev pub IsOrdered : List ReceivedEvent → Type 0
IsOrdered [] = Unit
IsOrdered (e ∷ es) = AllAfter (due_time e) es × IsOrdered es
