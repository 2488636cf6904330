-- ===== src/Dispatch/Handler/Listeners.antt =====
-- The calls of a ListenerHandler, and the listeners that are connected after them.
use hongwei_notebook.Common.{ℕ, ◌≡◌, List, [], ◌∷◌, ◌++◌, none, if◌then◌else◌, ◌==◌}
use hongwei_notebook.Common.Map.{nat_eq, lookup, erase}
use hongwei_notebook.Dispatch.Handler
use hongwei_notebook.Dispatch.Handler.{ListenerHandler, ConnectionMap, signal_of, conns_of, run}

abbrev pub update : {X : Type 0} → (ℕ → X) → ℕ → X → ℕ → X
update f k x j = if k == j then x else f j

-- The listeners by their keys, oldest first: those for every message, and those for a sender's.
pub record Listeners (L : Type 0) : Type 0 where
  pub of_all : List (ℕ × L)
  pub of_sender : ℕ → List (ℕ × L)

pub data Call (L : Type 0) : Type 0 where
  connects : ℕ → L → Call L
  connects_to : ℕ → ℕ → L → Call L
  disconnects : ℕ → Call L
  disconnects_from : ℕ → ℕ → Call L
  runs : ℕ → Call L

module _ {L : Type 0} where
  abbrev pub nobody : Listeners L
  nobody = record { of_all = []; of_sender = λ o. [] }

  unfoldable pub call : ListenerHandler L → Call L → ListenerHandler L
  call h (connects self_id l) = Handler.connect h self_id l
  call h (connects_to self_id oppo_id l) = Handler.connect_to h self_id oppo_id l
  call h (disconnects self_id) = Handler.disconnect h self_id
  call h (disconnects_from self_id oppo_id) = Handler.disconnect_from h self_id oppo_id
  call h (runs oppo_id) = (run h oppo_id).0

  unfoldable pub call_all : ListenerHandler L → List (Call L) → ListenerHandler L
  unfolding call
  call_all h [] = h
  call_all h (c ∷ cs) = call_all (call h c) cs

  abbrev pub after : Listeners L → Call L → Listeners L
  after a (connects k l) = record a { of_all = a.of_all ++ ((k, l) ∷ []) }
  after a (connects_to k o l) = record a {
    of_sender = update a.of_sender o (a.of_sender o ++ ((k, l) ∷ []));
  }
  after a (disconnects k) = record a { of_all = erase k a.of_all }
  after a (disconnects_from k o) = record a {
    of_sender = update a.of_sender o (erase k (a.of_sender o));
  }
  after a (runs o) = a

  abbrev pub after_all : Listeners L → List (Call L) → Listeners L
  after_all a [] = a
  after_all a (c ∷ cs) = after_all (after a c) cs

  -- A key is connected only while it is not.
  abbrev pub IsFresh : Listeners L → Call L → Type 0
  IsFresh a (connects k l) = lookup k a.of_all ≡ none
  IsFresh a (connects_to k o l) = lookup k (a.of_sender o) ≡ none
  IsFresh a (disconnects k) = Unit {0}
  IsFresh a (disconnects_from k o) = Unit {0}
  IsFresh a (runs o) = Unit {0}

  abbrev pub AllFresh : Listeners L → List (Call L) → Type 0
  AllFresh a [] = Unit {0}
  AllFresh a (c ∷ cs) = IsFresh a c × AllFresh (after a c) cs
