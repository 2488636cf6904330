-- ===== src/Dispatch/Handler/Delivers.antt =====
-- A ListenerHandler against the listeners that were connected and not disconnected since.
use hongwei_notebook.Common.{
  ℕ, ◌≡◌, refl, List, [], ◌∷◌, ◌++◌, none, some, arith, ◌==◌, sym, ◌∙◌, ap, append-nil, Bool-cases,
  Option-cases, inl, inr, subst,
}
use hongwei_notebook.Common.Map.{nat_eq, lookup, insert, lookup-insert}
use hongwei_notebook.Base.Signal
use hongwei_notebook.Base.Signal.{Signal}
use hongwei_notebook.Dispatch.Handler
use hongwei_notebook.Dispatch.Handler.{ListenerHandler, ConnectionMap, signal_of, conns_of, run}
use hongwei_notebook.Dispatch.Handler.Ports.{values}
use hongwei_notebook.Dispatch.Handler.Keeps.{Keeps, Keeps-make, Keeps-emit}
use hongwei_notebook.Dispatch.Handler.Listeners.{
  Listeners, Call, connects, connects_to, disconnects, disconnects_from, runs, nobody, call,
  call_all, after, after_all, IsFresh, AllFresh,
}
use hongwei_notebook.Dispatch.Handler.Refined.{
  Refines, Refines-make, connect-Refines, connect_to-Refines, disconnect-Refines,
  disconnect_from-Refines,
}

module _ {L : Type 0} where
  run_unknown :
      (h : ListenerHandler L) (o : ℕ)
      → lookup o h.signals ≡ none
      → run h o ≡ (record h { signal = (Signal.emit h.signal).0 }, (Signal.emit h.signal).1)
  unfolding run
  run_unknown h o e = ground (arith, e)

  run_known :
      (h : ListenerHandler L) (o : ℕ) (s : Signal L)
      → lookup o h.signals ≡ some s
      → run h o ≡ (
        record h {
          signal = (Signal.emit h.signal).0;
          signals = insert o (Signal.emit s).0 h.signals;
        },
        (Signal.emit h.signal).1 ++ (Signal.emit s).1,
      )
  unfolding run
  run_known h o s e = ground (arith, e)

  pub run-Refines :
      (h : ListenerHandler L) (a : Listeners L) (o : ℕ)
      → Refines h a
      → Refines (run h o).0 a × ((run h o).1 ≡ values a.of_all ++ values (a.of_sender o))
  run-Refines h a o r =
      let v = Keeps-emit a.of_all h.signal h.signal_conns r.all in
      elim (Option-cases (lookup o h.signals)) [
        | inl out ↦
            let e =
              Keeps-emit (a.of_sender o) (signal_of (lookup o h.signals))
                (conns_of (lookup o h.signals_conns)) (r.each o) in
            let silent : values (a.of_sender o) ≡ [] =
              sym e.1
              ∙ ap (λ x. (Signal.emit (signal_of x)).1) out
              ∙ (Keeps-emit [] Signal.make [] Keeps-make).1 in
            rw (run_unknown h o out) (
              record { all = v.0; each = r.each },
              v.1
                  ∙ sym (append-nil (values a.of_all))
                  ∙ ap (λ l. values a.of_all ++ l) (sym silent),
            )
        | inr (s, e) ↦
            let known : signal_of (lookup o h.signals) ≡ s = rw e refl in
            let w =
              Keeps-emit (a.of_sender o) s (conns_of (lookup o h.signals_conns))
                (rw known at (r.each o)) in
            rw (run_known h o s e) (
              record {
                all = v.0;
                each = λ j.
                    rw (lookup-insert o j (Signal.emit s).0 h.signals) (elim (Bool-cases (o == j)) [
                      | inl hit ↦
                          let same : o ≡ j = ground (arith, hit) in
                          rw hit (
                            subst
                              (λ i.
                                Keeps (a.of_sender i) (Signal.emit s).0
                                  (conns_of (lookup i h.signals_conns)))
                              same w.0)
                      | inr miss ↦ rw miss (r.each j)
                    ]);
              },
              rw (v.1, w.1) refl,
            )
      ]

  call-Refines :
      (h : ListenerHandler L) (a : Listeners L) (c : Call L)
      → IsFresh a c
      → Refines h a
      → Refines (call h c) (after a c)
  unfolding call
  call-Refines h a (connects k l) f r = connect-Refines h a k l f r
  call-Refines h a (connects_to k o l) f r = connect_to-Refines h a k o l f r
  call-Refines h a (disconnects k) f r = disconnect-Refines h a k r
  call-Refines h a (disconnects_from k o) f r = disconnect_from-Refines h a k o r
  call-Refines h a (runs o) f r = (run-Refines h a o r).0

  pub call_all-Refines :
      (cs : List (Call L)) (h : ListenerHandler L) (a : Listeners L)
      → AllFresh a cs
      → Refines h a
      → Refines (call_all h cs) (after_all a cs)
  unfolding call_all
  call_all-Refines [] h a f r = r
  call_all-Refines (c ∷ cs) h a f r =
      call_all-Refines cs (call h c) (after a c) f.1 (call-Refines h a c f.0 r)

  -- A new handler, and any calls of its operations of which none connects a key that is connected:
  -- then a message of sender `o` runs just the listeners that were connected for all messages and not
  -- disconnected since, oldest first, and after them those that were connected for the messages of `o`
  -- and not disconnected since.
  pub call_all-run :
      (cs : List (Call L)) (o : ℕ)
      → AllFresh nobody cs
      → let a = after_all nobody cs in
        (run (call_all Handler.make cs) o).1 ≡ values a.of_all ++ values (a.of_sender o)
  call_all-run cs o f =
      (run-Refines (call_all Handler.make cs) (after_all nobody cs) o
        (call_all-Refines cs Handler.make nobody f Refines-make)).1
