-- ===== src/Dispatch/Receivers/Handlers.antt =====
-- The handler of a channel in a dispatcher, after its operations.
use hongwei_notebook.Common.{
  ℕ, ◌≡◌, refl, false, [], Option, none, some, arith, ap, subst, sym, ◌∙◌, Option-cases, inl, inr,
}
use hongwei_notebook.Common.Map.{
  Bytes, bytes_beq_iff, bytes_eq, nat_eq, lookup, lookup-insert, beq_refl,
}
use hongwei_notebook.Base.Signal
use hongwei_notebook.Dispatch.{
  Dispatcher, Typed, put, handler_for, add_listener_to, remove_listener_from,
}
use hongwei_notebook.Dispatch.Handler
use hongwei_notebook.Dispatch.Handler.{ListenerHandler, run}
use hongwei_notebook.Dispatch.Receivers.{on_message}

module _ {L : Type 0} where
  abbrev pub handler_or_new : Option (Typed L) → ListenerHandler L
  handler_or_new none = Handler.make
  handler_or_new (some t) = t.handler

  -- The handler that a channel has, or would get.
  abbrev pub handler_at : Dispatcher L → ℕ → ListenerHandler L
  handler_at d channel = handler_or_new (lookup channel d.msg_listeners)

  abbrev pub HasType : Bytes → Option (Typed L) → Type 0
  HasType message_type none = Unit {0}
  HasType message_type (some t) = t.message_type ≡ message_type

  -- A dispatcher that is not shut down, and whose handler of a channel has a type, if there is one.
  pub record Serves (message_type : Bytes) (channel : ℕ) (d : Dispatcher L) : Type 0 where
    pub up : d.is_shutdown ≡ false
    pub typed : HasType message_type (lookup channel d.msg_listeners)

  lookup-put :
      (d : Dispatcher L) (channel : ℕ) (ty : Bytes) (h : ListenerHandler L)
      → lookup channel (put d channel ty h).msg_listeners
        ≡ some (record { message_type = ty; handler = h })
  unfolding put
  lookup-put d channel ty h =
      rw (lookup-insert channel channel (record { message_type = ty; handler = h }) d.msg_listeners)
        (rw (beq_refl channel) refl)

  up-put :
      (d : Dispatcher L) (channel : ℕ) (ty : Bytes) (h : ListenerHandler L)
      → (put d channel ty h).is_shutdown ≡ d.is_shutdown
  unfolding put
  up-put d channel ty h = refl

  put-Serves :
      (d : Dispatcher L) (channel : ℕ) (ty : Bytes) (h : ListenerHandler L)
      → d.is_shutdown ≡ false
      → (handler_at (put d channel ty h) channel ≡ h) × Serves ty channel (put d channel ty h)
  put-Serves d channel ty h up = (
    rw (lookup-put d channel ty h) refl,
    record { up = up-put d channel ty h ∙ up; typed = rw (lookup-put d channel ty h) refl },
  )

  handler_for_typed :
      (o : Option (Typed L)) (ty : Bytes)
      → HasType ty o
      → handler_for o ty ≡ some (handler_or_new o)
  unfolding handler_for
  handler_for_typed none ty h = refl
  handler_for_typed (some t) ty h = ground (arith, bytes_beq_iff t.message_type ty)

  pub add_listener_to-Serves :
      (d : Dispatcher L) (ty : Bytes) (channel self_id oppo_id : ℕ) (l : L)
      → Serves ty channel d
      → (handler_at (add_listener_to d ty channel self_id oppo_id l) channel
          ≡ Handler.connect_to (handler_at d channel) self_id oppo_id l)
        × Serves ty channel (add_listener_to d ty channel self_id oppo_id l)
  unfolding add_listener_to
  add_listener_to-Serves d ty channel self_id oppo_id l s =
      rw (s.up, handler_for_typed (lookup channel d.msg_listeners) ty s.typed)
        (put-Serves d channel ty (Handler.connect_to (handler_at d channel) self_id oppo_id l) s.up)

  new_disconnect_from :
      (self_id oppo_id : ℕ)
      → Handler.disconnect_from {L = L} Handler.make self_id oppo_id ≡ Handler.make
  unfolding Handler.disconnect_from Handler.make lookup
  new_disconnect_from self_id oppo_id = refl

  removed_known :
      (d : Dispatcher L) (t : Typed L) (channel self_id oppo_id : ℕ)
      → d.is_shutdown ≡ false
      → lookup channel d.msg_listeners ≡ some t
      → remove_listener_from d channel self_id oppo_id
        ≡ put d channel t.message_type (Handler.disconnect_from t.handler self_id oppo_id)
  unfolding remove_listener_from
  removed_known d t channel self_id oppo_id up e = ground (arith, up, e)

  removed_unknown :
      (d : Dispatcher L) (channel self_id oppo_id : ℕ)
      → lookup channel d.msg_listeners ≡ none
      → remove_listener_from d channel self_id oppo_id ≡ d
  unfolding remove_listener_from
  removed_unknown d channel self_id oppo_id e = ground (arith, e)

  pub remove_listener_from-Serves :
      (d : Dispatcher L) (ty : Bytes) (channel self_id oppo_id : ℕ)
      → Serves ty channel d
      → (handler_at (remove_listener_from d channel self_id oppo_id) channel
          ≡ Handler.disconnect_from (handler_at d channel) self_id oppo_id)
        × Serves ty channel (remove_listener_from d channel self_id oppo_id)
  remove_listener_from-Serves d ty channel self_id oppo_id s =
      elim (Option-cases (lookup channel d.msg_listeners)) [
        | inl out ↦
            rw (removed_unknown d channel self_id oppo_id out)
              (rw out (sym (new_disconnect_from self_id oppo_id)), s)
        | inr (t, e) ↦
            let h = Handler.disconnect_from t.handler self_id oppo_id in
            let p = put-Serves d channel t.message_type h s.up in
            let same : t.message_type ≡ ty = subst (HasType ty) e s.typed in
            rw (removed_known d t channel self_id oppo_id s.up e) (
              p.0 ∙ ap (λ o. Handler.disconnect_from (handler_or_new o) self_id oppo_id) (sym e),
              subst (λ y. Serves y channel (put d channel t.message_type h)) same p.1,
            )
      ]

  ran_known :
      (d : Dispatcher L) (t : Typed L) (channel sender : ℕ)
      → d.is_shutdown ≡ false
      → lookup channel d.msg_listeners ≡ some t
      → (on_message d channel sender).1 ≡ (run t.handler sender).1
  unfolding on_message
  ran_known d t channel sender up e = ground (arith, up, e)

  ran_unknown :
      (d : Dispatcher L) (channel sender : ℕ)
      → lookup channel d.msg_listeners ≡ none
      → (on_message d channel sender).1 ≡ []
  unfolding on_message
  ran_unknown d channel sender e = ground (arith, e)

  run_new : (sender : ℕ) → (run {L = L} Handler.make sender).1 ≡ []
  unfolding run Handler.make Signal.emit Signal.make lookup
  run_new sender = refl

  pub on_message_lem :
      (d : Dispatcher L) (channel sender : ℕ)
      → d.is_shutdown ≡ false
      → (on_message d channel sender).1 ≡ (run (handler_at d channel) sender).1
  on_message_lem d channel sender up = elim (Option-cases (lookup channel d.msg_listeners)) [
    | inl out ↦ ran_unknown d channel sender out ∙ rw out (sym (run_new sender))
    | inr (t, e) ↦ ran_known d t channel sender up e ∙ rw e refl
  ]
