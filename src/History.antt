-- ===== src/History.antt =====
-- History<MessageT> of IntelligentDriving/my_cyber/transport/message/history.h: the last messages
-- of a transmitter, for readers that join late.
pub mod Depth
use hongwei_notebook.Common.{
  ℕ, zero, suc, Bool, true, false, List, [], ◌∷◌, ◌++◌, Option, none, some, ltb, if◌then◌else◌,
  length,
}

-- proto::QosHistoryPolicy, as far as the code asks
pub data HistoryPolicy : Type 0 where
  keep_all : HistoryPolicy
  keep_last : HistoryPolicy
  system_default : HistoryPolicy

pub record HistoryAttributes : Type 0 where
  pub history_policy : HistoryPolicy
  pub depth : ℕ

-- A is the cached message together with its MessageInfo.
pub record History (A : Type 0) : Type 0 where
  pub enabled : Bool
  pub depth : ℕ
  pub max_depth : ℕ
  pub msgs : List A

module _ {A : Type 0} where
  -- `configured` is the `max_history_depth` of the global configuration, where it has one.
  unfoldable pub make : Option ℕ → HistoryAttributes → History A
  make configured attr =
      let max_depth : ℕ = elim configured [ none ↦ 1000 | some n ↦ n ] in
      record {
        enabled = false;
        depth = elim attr.history_policy [
          | keep_all ↦ max_depth
          | _ ↦ if ltb max_depth attr.depth then max_depth else attr.depth
        ];
        max_depth = max_depth;
        msgs = [];
      }

  unfoldable pub enable : History A → History A
  enable h = record h { enabled = true }

  unfoldable pub disable : History A → History A
  disable h = record h { enabled = false }

  abbrev pub pop_front : List A → List A
  pop_front [] = []
  pop_front (x ∷ r) = r

  -- `while (msgs_.size() > depth_) msgs_.pop_front();` with fuel.
  unfoldable pub pop_while : ℕ → ℕ → List A → List A
  pop_while zero depth msgs = msgs
  pop_while (suc fuel) depth msgs = elim (ltb depth (length msgs)) [
    | true ↦ pop_while fuel depth (pop_front msgs)
    | false ↦ msgs
  ]

  unfoldable pub add : History A → A → History A
  unfolding pop_while
  add h msg =
      let queued = h.msgs ++ msg ∷ [] in
      if h.enabled then record h { msgs = pop_while (length queued) h.depth queued } else h

  pub clear : History A → History A
  clear h = record h { msgs = [] }

  -- The cached messages go in front of what the caller's vector holds.
  unfoldable pub get_cached_message : History A → List A → List A
  get_cached_message h out = h.msgs ++ out

  pub get_size : History A → ℕ
  get_size h = length h.msgs
