-- ===== src/Dispatch/Handler/Refined.antt =====
-- A ListenerHandler against the listeners that are connected to it: connecting and disconnecting.
use hongwei_notebook.Common.{
  ℕ, ◌≡◌, List, none, some, arith, ◌==◌, Bool-cases, Option-cases, inl, inr,
}
use hongwei_notebook.Common.Map.{nat_eq, lookup, insert, erase, lookup-insert}
use hongwei_notebook.Base.Signal
use hongwei_notebook.Base.Signal.{Signal}
use hongwei_notebook.Dispatch.Handler
use hongwei_notebook.Dispatch.Handler.{ListenerHandler, ConnectionMap, signal_of, conns_of, run}
use hongwei_notebook.Dispatch.Handler.Keeps.{
  Keeps, Keeps-connect, Keeps-disconnect, Keeps-absent, Keeps-make,
}
use hongwei_notebook.Dispatch.Handler.Listeners.{
  update, Listeners, connects, connects_to, disconnects, disconnects_from, nobody, after,
}

module _ {L : Type 0} where
  pub record Refines (h : ListenerHandler L) (a : Listeners L) : Type 0 where
    pub all : Keeps a.of_all h.signal h.signal_conns
    pub each :
        (o : ℕ)
        → Keeps
            (a.of_sender o)
            (signal_of (lookup o h.signals))
            (conns_of (lookup o h.signals_conns))

  pub Refines-make : Refines Handler.make nobody
  unfolding Handler.make lookup
  Refines-make = record { all = Keeps-make; each = λ o. Keeps-make }

  -- The listeners of one sender change, and those of the others stay.
  pub Keeps-insert :
      (h : ListenerHandler L) (a : Listeners L) (o : ℕ) (ls : List (ℕ × L)) (s : Signal L)
      (c : ConnectionMap)
      → Refines h a
      → Keeps ls s c
      → (j : ℕ)
      → Keeps
          (update a.of_sender o ls j)
          (signal_of (lookup j (insert o s h.signals)))
          (conns_of (lookup j (insert o c h.signals_conns)))
  Keeps-insert h a o ls s c r v j =
      rw (lookup-insert o j s h.signals, lookup-insert o j c h.signals_conns)
        (elim (Bool-cases (o == j)) [ inl hit ↦ rw hit v | inr miss ↦ rw miss (r.each j) ])

  pub connect-Refines :
      (h : ListenerHandler L) (a : Listeners L) (k : ℕ) (l : L)
      → lookup k a.of_all ≡ none
      → Refines h a
      → Refines (Handler.connect h k l) (after a (connects k l))
  unfolding Handler.connect
  connect-Refines h a k l f r =
      let v = Keeps-connect a.of_all h.signal h.signal_conns k l r.all f in
      rw v.1 (record { all = v.0; each = r.each })

  pub connect_to-Refines :
      (h : ListenerHandler L) (a : Listeners L) (k o : ℕ) (l : L)
      → lookup k (a.of_sender o) ≡ none
      → Refines h a
      → Refines (Handler.connect_to h k o l) (after a (connects_to k o l))
  unfolding Handler.connect_to
  connect_to-Refines h a k o l f r =
      let v =
        Keeps-connect (a.of_sender o) (signal_of (lookup o h.signals))
          (conns_of (lookup o h.signals_conns)) k l (r.each o) f in
      rw v.1 (record { all = r.all; each = Keeps-insert h a o _ _ _ r v.0 })

  pub disconnect_absent :
      (h : ListenerHandler L) (k : ℕ) → lookup k h.signal_conns ≡ none → Handler.disconnect h k ≡ h
  unfolding Handler.disconnect
  disconnect_absent h k e = ground (arith, e)

  pub disconnect_found :
      (h : ListenerHandler L) (k conn : ℕ)
      → lookup k h.signal_conns ≡ some conn
      → Handler.disconnect h k ≡ record h {
        signal = (Signal.disconnect h.signal conn).0;
        signal_conns = erase k h.signal_conns;
      }
  unfolding Handler.disconnect
  disconnect_found h k conn e = ground (arith, e)

  pub disconnect-Refines :
      (h : ListenerHandler L) (a : Listeners L) (k : ℕ)
      → Refines h a
      → Refines (Handler.disconnect h k) (after a (disconnects k))
  disconnect-Refines h a k r = elim (Option-cases (lookup k h.signal_conns)) [
    | inl out ↦ rw (disconnect_absent h k out) (record {
      all = rw (Keeps-absent a.of_all h.signal h.signal_conns k r.all out) r.all;
      each = r.each;
    })
    | inr (conn, e) ↦ rw (disconnect_found h k conn e) (record {
      all = Keeps-disconnect a.of_all h.signal h.signal_conns k conn r.all e;
      each = r.each;
    })
  ]

  pub disconnect_from_absent :
      (h : ListenerHandler L) (k o : ℕ)
      → lookup k (conns_of (lookup o h.signals_conns)) ≡ none
      → Handler.disconnect_from h k o ≡ h
  unfolding Handler.disconnect_from
  disconnect_from_absent h k o e = ground (arith, e)

  pub disconnect_from_found :
      (h : ListenerHandler L) (k o conn : ℕ)
      → lookup k (conns_of (lookup o h.signals_conns)) ≡ some conn
      → Handler.disconnect_from h k o ≡ record h {
        signals = insert o (Signal.disconnect (signal_of (lookup o h.signals)) conn).0 h.signals;
        signals_conns = insert o (erase k (conns_of (lookup o h.signals_conns))) h.signals_conns;
      }
  unfolding Handler.disconnect_from lookup
  disconnect_from_found h k o conn e = ground (arith, e)

  pub disconnect_from-Refines :
      (h : ListenerHandler L) (a : Listeners L) (k o : ℕ)
      → Refines h a
      → Refines (Handler.disconnect_from h k o) (after a (disconnects_from k o))
  disconnect_from-Refines h a k o r =
      let s = signal_of (lookup o h.signals) in
      let c = conns_of (lookup o h.signals_conns) in
      elim (Option-cases (lookup k c)) [
        | inl out ↦ rw (disconnect_from_absent h k o out) (record {
          all = r.all;
          each = λ j.
              rw (Keeps-absent (a.of_sender o) s c k (r.each o) out) (elim (Bool-cases (o == j)) [
                | inl hit ↦ let same : o ≡ j = ground (arith, hit) in rw hit (rw same (r.each j))
                | inr miss ↦ rw miss (r.each j)
              ]);
        })
        | inr (conn, e) ↦ rw (disconnect_from_found h k o conn e) (record {
          all = r.all;
          each =
              Keeps-insert h a o _ _ _ r (Keeps-disconnect (a.of_sender o) s c k conn (r.each o) e);
        })
      ]
