-- ===== src/Hybrid/Transmitter/Late.antt =====
-- What a receiver that joins a HybridTransmitter late gets of the messages before.
use hongwei_notebook.Common.{
  ℕ, ◌≡◌, refl, true, List, [], ◌∷◌, Option, some, arith, if◌then◌else◌, ◌∙◌, sym, ap, append-nil,
  Bool-cases, inl, inr,
}
use hongwei_notebook.History
use hongwei_notebook.History.{History}
use hongwei_notebook.History.Depth.{add_all, last_of, last_of_all, add_all-last}
use hongwei_notebook.Hybrid.{
  OptionalMode, CommunicationMode, EndAttributes, route, at_mode, history_channel, obtain_config,
}
use hongwei_notebook.Hybrid.Transmitter.{
  HybridTransmitter, make, init_history, enable, disable, transmit, transmit_history, set_insert,
  switch, Sent, sent_history,
}
use hongwei_notebook.Hybrid.Transmitter.Reaches.{call_all-Fixed}
use hongwei_notebook.Hybrid.Transmitter.Calls.{Call, enables, disables, transmits, call, call_all}

module _ {A : Type 0} where
  abbrev pub transmitted : List (Call A) → List A
  transmitted [] = []
  transmitted (enables o ∷ cs) = transmitted cs
  transmitted (disables o ∷ cs) = transmitted cs
  transmitted (transmits msg ∷ cs) = msg ∷ transmitted cs

  history-enable :
      (t : HybridTransmitter A) (o : EndAttributes) → (enable t o).0.history ≡ t.history
  unfolding enable
  history-enable t o = ground arith

  history-disable :
      (t : HybridTransmitter A) (o : EndAttributes) → (disable t o).history ≡ t.history
  unfolding disable
  history-disable t o = ground arith

  history-call_all :
      (cs : List (Call A)) (t : HybridTransmitter A)
      → (call_all t cs).history ≡ add_all t.history (transmitted cs)
  unfolding call_all call transmit
  history-call_all [] t = refl
  history-call_all (enables o ∷ cs) t =
      history-call_all cs (enable t o).0 ∙ ap (λ h. add_all h (transmitted cs)) (history-enable t o)
  history-call_all (disables o ∷ cs) t =
      history-call_all cs (disable t o) ∙ ap (λ h. add_all h (transmitted cs)) (history-disable t o)
  history-call_all (transmits msg ∷ cs) t = history-call_all cs (transmit t msg).0

  -- The last messages of a list, sent on the channel of a late reader, if there are any.
  abbrev pub late : ℕ → ℕ → List A → List (Sent A)
  late own_id id [] = []
  late own_id id (m ∷ ms) = sent_history (history_channel own_id id) (m ∷ ms) ∷ []

  transmit_history_lem :
      (t : HybridTransmitter A) (o : EndAttributes)
      → transmit_history t o
        ≡ (if t.attr.transient_local then late t.attr.id o.id t.history.msgs else [])
  unfolding transmit_history History.get_cached_message
  transmit_history_lem t o = rw append-nil (ground arith)

  enable_routed_sends :
      (t : HybridTransmitter A) (o : EndAttributes) (k : OptionalMode)
      → route t.mode t.attr o ≡ some k
      → (enable t o).1
        ≡ transmit_history
            (record t {
              receivers = at_mode t.receivers k (set_insert o.id (t.receivers k));
              transmitters = at_mode t.transmitters k (switch true (t.transmitters k));
            })
            o
  unfolding enable
  enable_routed_sends t o k e = ground (arith, e)

  enable_sends :
      (t : HybridTransmitter A) (o : EndAttributes) (k : OptionalMode)
      → route t.mode t.attr o ≡ some k
      → (enable t o).1 ≡ (if t.attr.transient_local then late t.attr.id o.id t.history.msgs else [])
  enable_sends t o k e = enable_routed_sends t o k e ∙ transmit_history_lem _ o

  start_of :
      (configured : Option ℕ) (conf : Option (Option CommunicationMode)) (own : EndAttributes)
      → let t : HybridTransmitter A = make configured conf own in
        (t.mode ≡ obtain_config conf) × (t.attr ≡ own) × (t.history ≡ init_history configured own)
  unfolding make
  start_of configured conf own = (refl, refl, refl)

  kept :
      (configured : Option ℕ) (own : EndAttributes) (ms : List A)
      → own.transient_local ≡ true
      → let h : History A = History.make configured own.history in
        (add_all (init_history configured own) ms).msgs ≡ last_of h.depth ms
  unfolding init_history History.make History.enable
  kept configured own ms local = rw local (
      add_all-last ms (History.enable (History.make configured own.history)) [] refl
        (sym (last_of_all _ [] (omega arith))))

  -- A new transmitter, any receivers that join or leave it and messages that it transmits, and then a
  -- receiver of its channel that joins: if the transmitter is transient-local, it sends on the channel of
  -- the two the last of the messages that it transmitted before, as many as its history holds, in order,
  -- and nothing if there is none; otherwise it sends nothing.
  pub enable-late :
      (configured : Option ℕ) (conf : Option (Option CommunicationMode)) (own o : EndAttributes)
      (cs : List (Call A)) (k : OptionalMode)
      → route (obtain_config conf) own o ≡ some k
      → let h : History A = History.make configured own.history in
        (enable (call_all (make configured conf own) cs) o).1
        ≡ (if own.transient_local then late own.id o.id (last_of h.depth (transmitted cs)) else [])
  enable-late configured conf own o cs k e =
      let t0 = make configured conf own in
      let t = call_all t0 cs in
      let f = call_all-Fixed cs t0 in
      let s = start_of configured conf own in
      let mode = f.0 ∙ s.0 in
      let attr = f.1 ∙ s.1 in
      let h = history-call_all cs t0 ∙ ap (λ x. add_all x (transmitted cs)) s.2 in
      enable_sends t o k (rw (mode, attr) e)
      ∙ rw (attr, h)
          (elim (Bool-cases own.transient_local) [
            | inl local ↦ rw (kept configured own (transmitted cs) local) refl
            | inr not_local ↦ rw not_local refl
          ])
