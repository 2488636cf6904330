-- ===== src/Blocker.antt =====
-- Blocker<T> of IntelligentDriving/my_cyber/blocker/blocker.h: the newest messages of a channel, a
-- snapshot of them, and the callbacks that each publication runs. A call is one step: the mutexes
-- make the two halves of Publish atomic one by one, and only the first changes the queues.
pub mod Queue
pub mod Callbacks
use hongwei_notebook.Common.{
  ℕ, zero, suc, Bool, true, false, List, [], ◌∷◌, Option, none, some, ◌==◌, ltb, if◌then◌else◌,
  length, map,
}
use hongwei_notebook.Common.Map.{Bytes, bytes_eq, lookup, insert, erase, has}

-- A is the message, and C a callback; the list of callbacks that ran stands for their effect.
pub record Blocker (A C : Type 0) : Type 0 where
  pub capacity : ℕ
  pub channel_name : Bytes
  pub observed : List A
  pub published : List A
  pub callbacks : List (Bytes × C)

module _ {A : Type 0} where
  abbrev pub pop_back : List A → List A
  pop_back [] = []
  pop_back (x ∷ []) = []
  pop_back (x ∷ y ∷ r) = x ∷ pop_back (y ∷ r)

  -- `while (queue.size() > capacity) queue.pop_back();` with fuel.
  pub pop_while : ℕ → ℕ → List A → List A
  pop_while zero capacity queue = queue
  pop_while (suc fuel) capacity queue = elim (ltb capacity (length queue)) [
    | true ↦ pop_while fuel capacity (pop_back queue)
    | false ↦ queue
  ]

  unfoldable pub front : List A → Option A
  front [] = none
  front (x ∷ _) = some x

  pub back : List A → Option A
  back [] = none
  back (x ∷ []) = some x
  back (x ∷ y ∷ r) = back (y ∷ r)

  pub is_empty : List A → Bool
  is_empty [] = true
  is_empty (_ ∷ _) = false

module _ {A C : Type 0} where
  pub make : ℕ → Bytes → Blocker A C
  make capacity channel = record {
    capacity = capacity;
    channel_name = channel;
    observed = [];
    published = [];
    callbacks = [];
  }

  pub enqueue : Blocker A C → A → Blocker A C
  unfolding pop_while
  enqueue b msg = if b.capacity == 0 then b else record b {
    published = pop_while (length (msg ∷ b.published)) b.capacity (msg ∷ b.published);
  }

  pub notify : Blocker A C → A → List (C × A)
  notify b msg = map (λ item. (item.1, msg)) b.callbacks

  pub publish : Blocker A C → A → Blocker A C × List (C × A)
  unfolding enqueue notify
  publish b msg = let b' = enqueue b msg in (b', notify b' msg)

  pub reset : Blocker A C → Blocker A C
  reset b = record b { observed = []; published = []; callbacks = [] }

  pub clear_observed : Blocker A C → Blocker A C
  clear_observed b = record b { observed = [] }

  pub clear_published : Blocker A C → Blocker A C
  clear_published b = record b { published = [] }

  pub observe : Blocker A C → Blocker A C
  observe b = record b { observed = b.published }

  pub is_observed_empty : Blocker A C → Bool
  unfolding is_empty
  is_observed_empty b = is_empty b.observed

  pub is_published_empty : Blocker A C → Bool
  unfolding is_empty
  is_published_empty b = is_empty b.published

  pub subscribe : Blocker A C → Bytes → C → Blocker A C × Bool
  unfolding has
  subscribe b callback_id callback =
      if has callback_id b.callbacks
      then (b, false)
      else (record b { callbacks = insert callback_id callback b.callbacks }, true)

  pub unsubscribe : Blocker A C → Bytes → Blocker A C × Bool
  unfolding has
  unsubscribe b callback_id =
      (record b { callbacks = erase callback_id b.callbacks }, has callback_id b.callbacks)

  -- The dummy message of the blocker stands in where nothing was observed.
  pub get_latest_observed : A → Blocker A C → A
  get_latest_observed dummy b = elim b.observed [ [] ↦ dummy | x ∷ _ ↦ x ]

  pub get_latest_observed_ptr : Blocker A C → Option A
  unfolding front
  get_latest_observed_ptr b = front b.observed

  pub get_oldest_observed_ptr : Blocker A C → Option A
  unfolding back
  get_oldest_observed_ptr b = back b.observed

  pub get_latest_published_ptr : Blocker A C → Option A
  unfolding front
  get_latest_published_ptr b = front b.published

  pub set_capacity : Blocker A C → ℕ → Blocker A C
  unfolding pop_while
  set_capacity b capacity = record b {
    capacity = capacity;
    published = pop_while (length b.published) capacity b.published;
  }
