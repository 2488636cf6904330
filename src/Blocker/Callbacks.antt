-- ===== src/Blocker/Callbacks.antt =====
-- The callbacks of a blocker: Subscribe and Unsubscribe against the map that they keep.
use hongwei_notebook.Common.{◌≡◌, true, not, Option, none, some, arith, if◌then◌else◌}
use hongwei_notebook.Common.Map.{
  Bytes, bytes_eq, bytes_beq, lookup, erase, has, lookup-insert, lookup-erase,
}
use hongwei_notebook.Blocker.{Blocker, subscribe, unsubscribe}

abbrev pub or_else : {C : Type 0} → Option C → C → Option C
or_else none c = some c
or_else (some d) c = some d

module _ {A C : Type 0} where
  -- Subscribe keeps the callback that an identifier already has, and says so.
  pub subscribe_lem :
      (b : Blocker A C) (id j : Bytes) (c : C)
      → (lookup j (subscribe b id c).0.callbacks
          ≡ (if bytes_beq id j then or_else (lookup id b.callbacks) c else lookup j b.callbacks))
        × ((subscribe b id c).1 ≡ not (has id b.callbacks))
  unfolding subscribe
  subscribe_lem b id j c = ground (arith, lookup-insert id j c b.callbacks, bytes_eq.beq_iff id j)

  -- Unsubscribe says whether the identifier had a callback, and after it a Subscribe of that
  -- identifier is accepted with the new callback.
  pub unsubscribe-subscribe :
      (b : Blocker A C) (id : Bytes) (c : C)
      → let (b', known) = unsubscribe b id in
        let (b'', accepted) = subscribe b' id c in
        (known ≡ has id b.callbacks) × (accepted ≡ true) × (lookup id b''.callbacks ≡ some c)
  unfolding subscribe unsubscribe
  unsubscribe-subscribe b id c = ground (
    arith,
    lookup-erase id id b.callbacks,
    lookup-insert id id c (erase id b.callbacks),
    bytes_eq.beq_iff id id,
  )
