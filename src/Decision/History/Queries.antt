-- ===== src/Decision/History/Queries.antt =====
-- What a query of the decision history returns.
use ai_enterprise_os.Prelude.{ℕ, String, Bool, ◌&&◌, Option, List}
use ai_enterprise_os.Decision.Models.{Decision, status_value, category_value, priority_name}
use ai_enterprise_os.Decision.History.{Filters, wants, tagged, ranks, not_before, not_after}

-- What a decision has to be, for filters whose dates stand for `start` and `end`.
abbrev pub answers :
    {F V : Type 0} → (String → String) → Filters → Option ℕ → Option ℕ → Decision F V → Bool
answers lower f start end d =
    wants f.status (status_value d.status)
    && (wants f.category (category_value d.category)
        && (wants f.owner d.owner
            && (wants f.requester d.requester
                && (ranks lower f.priority (priority_name d.priority)
                    && (tagged f.tags d.tags
                        && (not_before start d.created_at && not_after end d.created_at))))))
