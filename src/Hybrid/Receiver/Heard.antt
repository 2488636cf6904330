-- ===== src/Hybrid/Receiver/Heard.antt =====
-- What a HybridReceiver hears by a mode whose dispatcher is a plain one (ShmDispatcher, RtpsDispatcher),
-- from the calls down to the signals of the handlers.
use hongwei_notebook.Common.{
  ℕ, ◌≡◌, refl, Bool, false, List, [], ◌∷◌, Option, arith, if◌then◌else◌, ◌∙◌, sym, ap, subst,
  Bool-cases, Option-cases, inl, inr,
}
use hongwei_notebook.Common.Map.{nat_eq, lookup, has}
use hongwei_notebook.Dispatch
use hongwei_notebook.Dispatch.{Dispatcher}
use hongwei_notebook.Dispatch.Handler.Delivers.{run-Refines}
use hongwei_notebook.Dispatch.Handler.Refined.{Refines-make}
use hongwei_notebook.Dispatch.Receivers.{Receiver, enable_to, disable_from, on_message}
use hongwei_notebook.Dispatch.Receivers.Handlers.{handler_at, on_message_lem}
use hongwei_notebook.Hybrid.{
  OptionalMode, mode_beq, mode_beq_iff, CommunicationMode, obtain_config, EndAttributes, route,
}
use hongwei_notebook.Hybrid.Receiver.{
  HybridReceiver, make, enable, disable, low_enable_to, low_disable_from, receive_history,
}
use hongwei_notebook.Hybrid.Receiver.Calls.{
  Call, enables, disables, call, is_live, enable_new, enable_old, enable_unrelated, disable_old,
  disable_new, disable_unrelated, is_live-cons, fixed, known-call,
}
use hongwei_notebook.Hybrid.Receiver.Hears.{
  Plain, mode_of, low, low_all, call_all, Hears, joins, parts, elsewhere, low_history,
}

at_first :
    (m : OptionalMode) (conf : Option (Option CommunicationMode)) (own : EndAttributes) (id : ℕ)
    (cs : List Call)
    → let r = make conf own in
      is_live r.mode r.attr m id (has id (r.transmitters m)) cs
      ≡ is_live (obtain_config conf) own m id false cs
unfolding make has lookup
at_first m conf own id cs = refl

module _ {L : Type 0} where
  -- The receiver of the mode stays, and so does what it hears.
  record Goes (m : OptionalMode) (r : HybridReceiver) (e : Receiver L)
      (s : Receiver L × Dispatcher L) : Type 0 where
    same : s.0 ≡ e
    hears : Hears m r e s.1

  low_joins :
      (p : Plain) (k : OptionalMode) (e : Receiver L) (d : Dispatcher L) (r : HybridReceiver)
      (o : EndAttributes)
      → low_all p (e, d) (low_enable_to k o ∷ receive_history r o)
        ≡ (if mode_beq k (mode_of p) then (e, enable_to e d o.id) else (e, d))
  unfolding low_all low
  low_joins p k e d r o =
      low_history p (if mode_beq k (mode_of p) then (e, enable_to e d o.id) else (e, d)) r o

  low_parts :
      (p : Plain) (k : OptionalMode) (e : Receiver L) (d : Dispatcher L) (o : EndAttributes)
      → low_all p (e, d) (low_disable_from k o ∷ [])
        ≡ (if mode_beq k (mode_of p) then (e, disable_from e d o.id) else (e, d))
  unfolding low_all low
  low_parts p k e d o = refl

  stays :
      (p : Plain) (r : HybridReceiver) (e : Receiver L) (d : Dispatcher L)
      → Hears (mode_of p) r e d
      → Goes (mode_of p) r e (low_all p (e, d) [])
  unfolding low_all
  stays p r e d h = record { same = refl; hears = h }

  enable-Goes :
      (p : Plain) (r : HybridReceiver) (e : Receiver L) (d : Dispatcher L) (o : EndAttributes)
      → Hears (mode_of p) r e d
      → Goes (mode_of p) (enable r o).0 e (low_all p (e, d) (enable r o).1)
  enable-Goes p r e d o h = elim (Option-cases (route r.mode r.attr o)) [
    | inl out ↦ rw (enable_unrelated r o out) (stays p r e d h)
    | inr (k, met) ↦ elim (Bool-cases (has o.id (r.transmitters k))) [
      | inl old ↦ rw (enable_old r o k met old) (stays p r e d h)
      | inr new ↦
          rw (enable_new r o k met new, low_joins p k e d r o)
            (elim (Bool-cases (mode_beq k (mode_of p))) [
              | inl here ↦
                  let same : k ≡ (mode_of p) = (mode_beq_iff k (mode_of p)).0 here in
                  rw here (record {
                    same = refl;
                    hears = rw same (joins (mode_of p) r e d o (rw same at new) h);
                  })
              | inr there ↦
                  rw there (record { same = refl; hears = elsewhere (mode_of p) k r e d _ there h })
            ])
    ]
  ]

  disable-Goes :
      (p : Plain) (r : HybridReceiver) (e : Receiver L) (d : Dispatcher L) (o : EndAttributes)
      → Hears (mode_of p) r e d
      → Goes (mode_of p) (disable r o).0 e (low_all p (e, d) (disable r o).1)
  disable-Goes p r e d o h = elim (Option-cases (route r.mode r.attr o)) [
    | inl out ↦ rw (disable_unrelated r o out) (stays p r e d h)
    | inr (k, met) ↦ elim (Bool-cases (has o.id (r.transmitters k))) [
      | inl old ↦
          rw (disable_old r o k met old, low_parts p k e d o)
            (elim (Bool-cases (mode_beq k (mode_of p))) [
              | inl here ↦
                  let same : k ≡ (mode_of p) = (mode_beq_iff k (mode_of p)).0 here in
                  rw here (record { same = refl; hears = rw same (parts (mode_of p) r e d o h) })
              | inr there ↦
                  rw there (record { same = refl; hears = elsewhere (mode_of p) k r e d _ there h })
            ])
      | inr new ↦ rw (disable_new r o k met new) (stays p r e d h)
    ]
  ]

  call-Goes :
      (p : Plain) (r : HybridReceiver) (e : Receiver L) (d : Dispatcher L) (c : Call)
      → Hears (mode_of p) r e d
      → Goes (mode_of p) (call r c).0 e (low_all p (e, d) (call r c).1)
  unfolding call
  call-Goes p r e d (enables o) h = enable-Goes p r e d o h
  call-Goes p r e d (disables o) h = disable-Goes p r e d o h

  next-Goes :
      (p : Plain) (r : HybridReceiver) (e : Receiver L) (s : Receiver L × Dispatcher L) (c : Call)
      → Goes (mode_of p) r e s
      → Goes (mode_of p) (call r c).0 e (low_all p s (call r c).1)
  next-Goes p r e (e', d) c g =
      subst (λ x. Goes (mode_of p) (call r c).0 x (low_all p (e', d) (call r c).1)) g.same
        (call-Goes p r e' d c (rw g.same g.hears))

  call_all-Goes :
      (cs : List Call) (p : Plain) (r : HybridReceiver) (e : Receiver L)
      (s : Receiver L × Dispatcher L)
      → Goes (mode_of p) r e s
      → Goes (mode_of p) (call_all p r s cs).0 e (call_all p r s cs).1
  unfolding call_all
  call_all-Goes [] p r e s g = g
  call_all-Goes (c ∷ cs) p r e s g =
      call_all-Goes cs p (call r c).0 e (low_all p s (call r c).1) (next-Goes p r e s c g)

  known-call_all :
      (cs : List Call) (p : Plain) (r : HybridReceiver) (s : Receiver L × Dispatcher L) (id : ℕ)
      → has id ((call_all p r s cs).0.transmitters (mode_of p))
        ≡ is_live r.mode r.attr (mode_of p) id (has id (r.transmitters (mode_of p))) cs
  unfolding call_all is_live
  known-call_all [] p r s id = refl
  known-call_all (c ∷ cs) p r s id =
      let f = fixed r c in
      known-call_all cs p (call r c).0 (low_all p s (call r c).1) id
      ∙ rw (f.0, f.1, known-call r c (mode_of p) id)
          (sym
            (is_live-cons r.mode r.attr (mode_of p) id (has id (r.transmitters (mode_of p))) c cs))

  make-Hears :
      (p : Plain) (conf : Option (Option CommunicationMode)) (own : EndAttributes) (e : Receiver L)
      → Hears (mode_of p) (make conf own) e Dispatch.make
  unfolding make Dispatch.make lookup has
  make-Hears p conf own e = record {
    serves = record { up = refl; typed = tt };
    view = Refines-make;
  }

  heard :
      (p : Plain) (r : HybridReceiver) (e : Receiver L) (s : Receiver L × Dispatcher L) (sender : ℕ)
      → Goes (mode_of p) r e s
      → (on_message s.1 e.channel_id sender).1
        ≡ (if has sender (r.transmitters (mode_of p)) then e.listener ∷ [] else [])
  heard p r e s sender g =
      on_message_lem s.1 e.channel_id sender g.hears.serves.up
      ∙ (run-Refines (handler_at s.1 e.channel_id) _ sender g.hears.view).1
      ∙ ground arith

  pub enable-on_message :
      (p : Plain) (conf : Option (Option CommunicationMode)) (own : EndAttributes) (e : Receiver L)
      (cs : List Call) (sender : ℕ)
      → let s = call_all p (make conf own) (e, Dispatch.make) cs in
        (on_message s.1.1 e.channel_id sender).1 ≡ (
          if is_live (obtain_config conf) own (mode_of p) sender false cs
          then e.listener ∷ []
          else [])
  enable-on_message p conf own e cs sender =
      let r = make conf own in
      let s = call_all p r (e, Dispatch.make) cs in
      heard p s.0 e s.1 sender (
        call_all-Goes cs p r e (e, Dispatch.make)
          (record { same = refl; hears = make-Hears p conf own e }))
      ∙ rw (known-call_all cs p r (e, Dispatch.make) sender) (
          ap (λ (b : Bool). if b then e.listener ∷ [] else [])
            (at_first (mode_of p) conf own sender cs))
