-- ===== src/Hybrid/Transmitter/Reaches.antt =====
-- The modes in which a HybridTransmitter sends, against the receivers that are there.
use hongwei_notebook.Common.{
  ℕ, ◌≡◌, refl, ◌↔◌, Bool, true, false, List, [], ◌∷◌, Option, ==_iff, arith, ◌||◌, Bool-cases,
  Option-cases, inl, inr, ◌∙◌, sym,
}
use hongwei_notebook.Hybrid.{
  OptionalMode, hybrid, mode_beq, mode_beq_iff, EndAttributes, CommunicationMode, route,
  obtain_config, get_relation,
}
use hongwei_notebook.Hybrid.Transmitter.{
  HybridTransmitter, make, enable, disable, transmit, member, set_erase, is_empty, is_enabled, Sent,
  sent, sent_history,
}
use hongwei_notebook.Hybrid.Transmitter.Calls.{
  Call, enables, disables, transmits, call, call_all, is_live, IsReady, member-set_insert,
  member-set_erase, set_insert_some, set_erase_some, table-in_use, enable_routed, enable_unrelated,
  disable_routed, disable_unrelated,
}

module _ {A : Type 0} where
  enable-IsReady :
      (t : HybridTransmitter A) (o : EndAttributes) → IsReady t → IsReady (enable t o).0
  enable-IsReady t o r = elim (Option-cases (route t.mode t.attr o)) [
    | inl out ↦ rw (enable_unrelated t o out) r
    | inr (k, e) ↦ rw (enable_routed t o k e) (
        let used = table-in_use t.mode (get_relation t.attr o) k e in
        record {
          there = λ m. ground (
            arith,
            r.there m,
            r.there k,
            used,
            mode_beq_iff k m,
            set_insert_some o.id (t.receivers k),
          );
          unused = λ m h. ground (arith, r.unused m h, used, h, mode_beq_iff k m);
        })
  ]

  disable-IsReady :
      (t : HybridTransmitter A) (o : EndAttributes) → IsReady t → IsReady (disable t o)
  disable-IsReady t o r = elim (Option-cases (route t.mode t.attr o)) [
    | inl out ↦ rw (disable_unrelated t o out) r
    | inr (k, e) ↦ rw (disable_routed t o k e) (
        let used = table-in_use t.mode (get_relation t.attr o) k e in
        elim (Bool-cases (is_empty (set_erase o.id (t.receivers k)))) [
          | inl gone ↦ rw gone (record {
            there = λ m. ground (arith, r.there m, r.there k, used, mode_beq_iff k m, gone);
            unused = λ m h. ground (arith, r.unused m h, used, h, mode_beq_iff k m);
          })
          | inr left ↦ rw left (record {
            there = λ m. ground (
              arith,
              r.there m,
              r.there k,
              used,
              mode_beq_iff k m,
              left,
              set_erase_some o.id (t.receivers k) left,
            );
            unused = λ m h. ground (arith, r.unused m h, used, h, mode_beq_iff k m);
          })
        ])
  ]

  call-IsReady : (t : HybridTransmitter A) (c : Call A) → IsReady t → IsReady (call t c)
  unfolding call transmit
  call-IsReady t (enables o) r = enable-IsReady t o r
  call-IsReady t (disables o) r = disable-IsReady t o r
  call-IsReady t (transmits msg) r = record { there = r.there; unused = r.unused }

  -- The attributes and the modes of a transmitter stay.
  abbrev pub Fixed : HybridTransmitter A → HybridTransmitter A → Type 0
  Fixed t u = (u.mode ≡ t.mode) × (u.attr ≡ t.attr)

  pub call-Fixed : (t : HybridTransmitter A) (c : Call A) → Fixed t (call t c)
  unfolding call transmit enable disable
  call-Fixed t (enables o) = ground arith
  call-Fixed t (disables o) = ground arith
  call-Fixed t (transmits msg) = (refl, refl)

  member-call :
      (t : HybridTransmitter A) (c : Call A) (m : OptionalMode) (id : ℕ)
      → member id ((call t c).receivers m)
        ≡ is_live t.mode t.attr m id (member id (t.receivers m)) (c ∷ [])
  unfolding call transmit is_live
  member-call t (enables o) m id = elim (Option-cases (route t.mode t.attr o)) [
    | inl out ↦ rw (enable_unrelated t o out, out) refl
    | inr (k, e) ↦
        rw (enable_routed t o k e, e)
          (ground (arith, mode_beq_iff k m, member-set_insert o.id id (t.receivers k)))
  ]
  member-call t (disables o) m id = elim (Option-cases (route t.mode t.attr o)) [
    | inl out ↦ rw (disable_unrelated t o out, out) refl
    | inr (k, e) ↦
        rw (disable_routed t o k e, e)
          (ground (arith, mode_beq_iff k m, member-set_erase o.id id (t.receivers k)))
  ]
  member-call t (transmits msg) m id = refl

  pub call_all-Fixed : (cs : List (Call A)) (t : HybridTransmitter A) → Fixed t (call_all t cs)
  unfolding call_all
  call_all-Fixed [] t = (refl, refl)
  call_all-Fixed (c ∷ cs) t =
      let f = call-Fixed t c in let g = call_all-Fixed cs (call t c) in (g.0 ∙ f.0, g.1 ∙ f.1)

  is_live-cons :
      (mode : CommunicationMode) (own : EndAttributes) (m : OptionalMode) (id : ℕ) (b : Bool)
      (c : Call A) (cs : List (Call A))
      → is_live mode own m id b (c ∷ cs)
        ≡ is_live mode own m id (is_live mode own m id b (c ∷ [])) cs
  unfolding is_live
  is_live-cons mode own m id b (enables o) cs = refl
  is_live-cons mode own m id b (disables o) cs = refl
  is_live-cons mode own m id b (transmits msg) cs = refl

  member-call_all :
      (cs : List (Call A)) (t : HybridTransmitter A) (m : OptionalMode) (id : ℕ)
      → member id ((call_all t cs).receivers m)
        ≡ is_live t.mode t.attr m id (member id (t.receivers m)) cs
  unfolding call_all is_live
  member-call_all [] t m id = refl
  member-call_all (c ∷ cs) t m id =
      let f = call-Fixed t c in
      member-call_all cs (call t c) m id
      ∙ (rw (f.0, f.1, member-call t c m id)
          (sym (is_live-cons t.mode t.attr m id (member id (t.receivers m)) c cs)))

  call_all-IsReady :
      (cs : List (Call A)) (t : HybridTransmitter A) → IsReady t → IsReady (call_all t cs)
  unfolding call_all
  call_all-IsReady [] t r = r
  call_all-IsReady (c ∷ cs) t r = call_all-IsReady cs (call t c) (call-IsReady t c r)

  make-IsReady :
      (configured : Option ℕ) (conf : Option (Option CommunicationMode)) (own : EndAttributes)
      → IsReady {A = A} (make configured conf own)
  unfolding make
  make-IsReady configured conf own = record { there = λ m. refl; unused = λ m h. refl }

  -- Whether what leaves the transmitter goes by a mode.
  abbrev pub sends : OptionalMode → List (Sent A) → Bool
  sends m [] = false
  sends m (sent k msg ∷ rest) = mode_beq k m || sends m rest
  sends m (sent_history channel msgs ∷ rest) = sends m rest

  sends_iff :
      (t : HybridTransmitter A) (msg : A) (m : OptionalMode)
      → sends m (transmit t msg).1 ≡ is_enabled (t.transmitters m)
  unfolding transmit
  sends_iff t msg hybrid = ground arith
  sends_iff t msg m = ground arith

some_member : (xs : List ℕ) → is_empty xs ≡ false → (id : ℕ) × (member id xs ≡ true)
unfolding member
some_member [] e = cc
some_member (x ∷ xs) e = (x, ground (arith, ==_iff x x))

member_some : (id : ℕ) (xs : List ℕ) → member id xs ≡ true → is_empty xs ≡ false
unfolding member
member_some id [] e = cc
member_some id (x ∷ xs) e = refl

module _ {A : Type 0} where
  enabled_iff :
      (t : HybridTransmitter A) (m : OptionalMode)
      → IsReady t
      → (is_enabled (t.transmitters m) ≡ true) ↔ ((id : ℕ) × (member id (t.receivers m) ≡ true))
  enabled_iff t m r = (
    λ e. some_member (t.receivers m) (ground (arith, r.there m, e)),
    λ p. ground (arith, r.there m, r.unused m, member_some p.0 (t.receivers m) p.1, p.1),
  )

  live_from_start :
      (configured : Option ℕ) (conf : Option (Option CommunicationMode)) (own : EndAttributes)
      (cs : List (Call A)) (m : OptionalMode) (id : ℕ)
      → member id ((call_all (make configured conf own) cs).receivers m)
        ≡ is_live (obtain_config conf) own m id false cs
  unfolding make member
  live_from_start configured conf own cs m id = member-call_all cs (make configured conf own) m id

  -- A new transmitter, and any receivers that join or leave it and messages that it transmits: then it
  -- sends a message by a mode exactly while there is a receiver that is met by that mode and whose last
  -- call was to join.
  pub transmit_iff :
      (configured : Option ℕ) (conf : Option (Option CommunicationMode)) (own : EndAttributes)
      (cs : List (Call A)) (msg : A) (m : OptionalMode)
      → (sends m (transmit (call_all (make configured conf own) cs) msg).1 ≡ true)
        ↔ ((id : ℕ) × (is_live (obtain_config conf) own m id false cs ≡ true))
  transmit_iff configured conf own cs msg m =
      let t = call_all (make configured conf own) cs in
      let e =
        enabled_iff t m
          (call_all-IsReady cs (make configured conf own) (make-IsReady configured conf own)) in
      rw (sends_iff t msg m) (
        λ h. let p = e.0 h in (p.0, sym (live_from_start configured conf own cs m p.0) ∙ p.1),
        λ p. e.1 (p.0, live_from_start configured conf own cs m p.0 ∙ p.1),
      )
