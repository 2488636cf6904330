-- ===== src/Tests/Queues.antt =====
-- The blocker and the history at concrete inputs.
use hongwei_notebook.Common.{ℕ, ◌≡◌, true, some, [], ◌∷◌, arith}
use hongwei_notebook.Common.Map.{bytes_eq}
use hongwei_notebook.Blocker.{Blocker, front, observe, get_latest_observed_ptr}
use hongwei_notebook.Blocker.Queue.{publish_all, publish_all-newest}
use hongwei_notebook.History.{History, HistoryAttributes, keep_last}

abbrev blocker : Blocker ℕ ℕ
blocker = record { capacity = 2; channel_name = []; observed = []; published = []; callbacks = [] }

publish_all-newest_example :
    let last = publish_all (observe (publish_all blocker (1 ∷ 2 ∷ 3 ∷ []))) (4 ∷ []) in
    (last.observed ≡ 3 ∷ 2 ∷ [])
    × (last.published ≡ 4 ∷ 3 ∷ [])
    × (get_latest_observed_ptr last ≡ some 3)
unfolding front
publish_all-newest_example = publish_all-newest (1 ∷ 2 ∷ 3 ∷ []) (4 ∷ []) blocker (omega arith)

abbrev subscribed : Blocker ℕ ℕ
subscribed = record blocker { callbacks = (1 ∷ [], 8) ∷ [] }

abbrev attributes : HistoryAttributes
attributes = record { history_policy = keep_last; depth = 2 }

abbrev kept : History ℕ
kept = record { enabled = true; depth = 2; max_depth = 1000; msgs = 4 ∷ 5 ∷ [] }
