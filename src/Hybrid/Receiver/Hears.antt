-- ===== src/Hybrid/Receiver/Hears.antt =====
-- What the low-level receiver of a mode and its dispatcher do when a HybridReceiver asks, and what the
-- dispatcher then has of the listener.
use hongwei_notebook.Common.{
  ℕ, ◌≡◌, refl, Bool, false, List, [], ◌∷◌, none, ==_iff, arith, if◌then◌else◌,
}
use hongwei_notebook.Common.Map.{nat_eq, lookup, has, insert, erase}
use hongwei_notebook.Dispatch.{Dispatcher}
use hongwei_notebook.Dispatch.Handler.{ListenerHandler}
use hongwei_notebook.Dispatch.Handler.Refined.{Refines, connect_to-Refines, disconnect_from-Refines}
use hongwei_notebook.Dispatch.Receivers
use hongwei_notebook.Dispatch.Receivers.{Receiver, enable_to, disable_from, on_message}
use hongwei_notebook.Dispatch.Receivers.Handlers.{
  Serves, handler_at, add_listener_to-Serves, remove_listener_from-Serves,
}
use hongwei_notebook.Hybrid.{
  OptionalMode, hybrid, shm, rtps, mode_beq, mode_beq_iff, EndAttributes, at_mode,
}
use hongwei_notebook.Hybrid.Receiver.{
  HybridReceiver, Low, low_enable, low_disable, low_enable_to, low_disable_from, hears_history,
  receive_history,
}
use hongwei_notebook.Hybrid.Receiver.Calls.{Call, call, has-insert, has-erase}

-- The modes whose receivers are a ShmReceiver or an RtpsReceiver, which have a plain dispatcher; that of
-- INTRA is an IntraReceiver, with an IntraDispatcher.
pub data Plain : Type 0 where
  plain_hybrid : Plain
  plain_shm : Plain
  plain_rtps : Plain

abbrev pub mode_of : Plain → OptionalMode
mode_of plain_hybrid = hybrid
mode_of plain_shm = shm
mode_of plain_rtps = rtps

module _ {L : Type 0} where
  -- What the low-level receiver of mode `m` does when the hybrid one asks.
  unfoldable pub low : Plain → Receiver L × Dispatcher L → Low → Receiver L × Dispatcher L
  unfolding enable_to disable_from Receivers.enable Receivers.disable
  low p (r, d) (low_enable k) = if mode_beq k (mode_of p) then Receivers.enable r d else (r, d)
  low p (r, d) (low_disable k) = if mode_beq k (mode_of p) then Receivers.disable r d else (r, d)
  low p (r, d) (low_enable_to k o) =
      if mode_beq k (mode_of p) then (r, enable_to r d o.id) else (r, d)
  low p (r, d) (low_disable_from k o) =
      if mode_beq k (mode_of p) then (r, disable_from r d o.id) else (r, d)
  low p (r, d) (hears_history channel) = (r, d)

  unfoldable pub low_all : Plain → Receiver L × Dispatcher L → List Low → Receiver L × Dispatcher L
  unfolding low
  low_all p s [] = s
  low_all p s (l ∷ ls) = low_all p (low p s l) ls

  -- The calls on the hybrid receiver, and what comes of them in the dispatcher of a mode.
  unfoldable pub call_all :
      Plain
      → HybridReceiver
      → Receiver L × Dispatcher L
      → List Call
      → HybridReceiver × (Receiver L × Dispatcher L)
  unfolding call low_all
  call_all p r s [] = (r, s)
  call_all p r s (c ∷ cs) = call_all p (call r c).0 (low_all p s (call r c).1) cs

  -- The listener of a receiver, if it is there.
  abbrev pub own_listener : Receiver L → Bool → List (ℕ × L)
  own_listener e there = if there then (e.id, e.listener) ∷ [] else []

  -- The listeners of the handler are those for the transmitters that the hybrid receiver knows.
  pub record Hears (m : OptionalMode) (r : HybridReceiver) (e : Receiver L) (d : Dispatcher L)
      : Type 0 where
    pub serves : Serves e.message_type e.channel_id d
    pub view :
        Refines
          (handler_at d e.channel_id)
          (record { of_all = []; of_sender = λ o. own_listener e (has o (r.transmitters m)) })

  -- Listeners that agree on every sender are served alike.
  pub same_view :
      (h : ListenerHandler L) (f g : ℕ → List (ℕ × L))
      → ((o : ℕ) → f o ≡ g o)
      → Refines h (record { of_all = []; of_sender = f })
      → Refines h (record { of_all = []; of_sender = g })
  same_view h f g e v = record { all = v.all; each = λ o. rw (← e o) (v.each o) }

  -- A transmitter that is new to the mode, and one that leaves it.
  pub joins :
      (m : OptionalMode) (r : HybridReceiver) (e : Receiver L) (d : Dispatcher L)
      (o : EndAttributes)
      → has o.id (r.transmitters m) ≡ false
      → Hears m r e d
      → Hears m
          (record r { transmitters = at_mode r.transmitters m (insert o.id o (r.transmitters m)) })
          e
          (enable_to e d o.id)
  unfolding enable_to lookup
  joins m r e d o new h =
      let t = add_listener_to-Serves d e.message_type e.channel_id e.id o.id e.listener h.serves in
      let f = λ (j : ℕ). own_listener e (has j (r.transmitters m)) in
      let fresh : lookup e.id (f o.id) ≡ none = rw new refl in
      let v =
        connect_to-Refines (handler_at d e.channel_id) (record { of_all = []; of_sender = f }) e.id
          o.id e.listener fresh h.view in
      record {
        serves = t.1;
        view = rw t.0 (
            same_view _ _ _
              (λ j. ground (
                arith,
                (mode_beq_iff m m).1 refl,
                has-insert o.id j o (r.transmitters m),
                ==_iff o.id j,
                new,
              ))
              v);
      }

  pub parts :
      (m : OptionalMode) (r : HybridReceiver) (e : Receiver L) (d : Dispatcher L)
      (o : EndAttributes)
      → Hears m r e d
      → Hears m
          (record r { transmitters = at_mode r.transmitters m (erase o.id (r.transmitters m)) })
          e
          (disable_from e d o.id)
  unfolding disable_from erase
  parts m r e d o h =
      let t = remove_listener_from-Serves d e.message_type e.channel_id e.id o.id h.serves in
      let f = λ (j : ℕ). own_listener e (has j (r.transmitters m)) in
      let v =
        disconnect_from-Refines (handler_at d e.channel_id) (record { of_all = []; of_sender = f })
          e.id o.id h.view in
      record {
        serves = t.1;
        view = rw t.0 (
            same_view _ _ _
              (λ j. ground (
                arith,
                (mode_beq_iff m m).1 refl,
                has-erase o.id j (r.transmitters m),
                ==_iff o.id j,
                ==_iff e.id e.id,
              ))
              v);
      }

  -- What concerns another mode.
  pub elsewhere :
      (m k : OptionalMode) (r : HybridReceiver) (e : Receiver L) (d : Dispatcher L)
      (ts : List (ℕ × EndAttributes))
      → mode_beq k m ≡ false
      → Hears m r e d
      → Hears m (record r { transmitters = at_mode r.transmitters k ts }) e d
  elsewhere m k r e d ts other h = record {
    serves = h.serves;
    view = same_view _ _ _ (λ j. rw other refl) h.view;
  }

  pub low_history :
      (p : Plain) (s : Receiver L × Dispatcher L) (r : HybridReceiver) (o : EndAttributes)
      → low_all p s (receive_history r o) ≡ s
  unfolding low_all low receive_history
  low_history p (e, d) r o = ground arith
