-- ===== src/Shm/Notifier/Log.antt =====
-- The ring of the notifier against the log of all announcements.
use native.Mathlib.Nat.{add-mul-mod_self_left}
use hongwei_notebook.Common.{
  get_elem?-append_left, get_elem?-append_last, ℕ, suc, ◌+◌, ◌-◌, ◌*◌, ◌/◌, ◌%◌, ◌<◌, ◌≤◌, false,
  none, some, ◌≡◌, sym, ap, ◌∙◌, ◌⊎◌, inl, inr, arith, List, [], ◌∷◌, ◌++◌, u64_mod, length,
  get_elem?, length-append, dec_lt,
}
use hongwei_notebook.Shm.Notifier.{
  ReadableInfo, buf_length, Indicator, claim_seq, put_info, put_seq, notify, poll,
}

-- The announcements of `past` were made, and none is under way.
pub record Logs (n : Indicator) (past : List ReadableInfo) : Type 0 where
  pub counted : n.next_seq ≡ length past
  pub numbers :
      (i : ℕ) → i < length past → length past ≤ i + buf_length → n.seqs (i % buf_length) ≡ i
  pub infos :
      (i : ℕ)
      → i < length past
      → length past ≤ i + buf_length
      → some (n.infos (i % buf_length)) ≡ get_elem? past i

length_snoc :
    (past : List ReadableInfo) (info : ReadableInfo)
    → length (past ++ info ∷ []) ≡ suc (length past)
length_snoc past info = omega (arith, length-append past (info ∷ []))

-- Notify appends its announcement to the log.
pub notify-Logs :
    (n : Indicator) (past : List ReadableInfo) (info : ReadableInfo)
    → Logs n past
    → length past + 1 < u64_mod
    → Logs (notify false n info).1 (past ++ info ∷ [])
unfolding notify claim_seq put_info put_seq
notify-Logs n past info h fits = record {
  counted = omega (arith, h.counted, length-append past (info ∷ []));
  numbers = λ i lt near. elim (dec_lt i (length past)) [
    | yes old ↦ ground (
      arith,
      h.counted,
      length_snoc past info,
      h.numbers i old (omega (arith, length_snoc past info)),
    )
    | no new ↦ ground (arith, h.counted, length_snoc past info)
  ];
  infos = λ i lt near. elim (dec_lt i (length past)) [
    | yes old ↦ rw (get_elem?-append_left past (info ∷ []) i old) (
        ground (
          arith,
          h.counted,
          length_snoc past info,
          h.infos i old (omega (arith, length_snoc past info)),
        ))
    | no new ↦
        let e : length past ≡ i = omega (arith, length_snoc past info) in
        ap some (ground (arith, h.counted, e))
        ∙ (sym (get_elem?-append_last past info) ∙ ap (get_elem? (past ++ info ∷ [])) e)
  ];
}

-- The number that a listener at p reaches in a log of that length: p, or if p was overwritten the
-- one of the last lap that has its slot.
pub reached : ℕ → ℕ → ℕ
reached p len = p + 4096 * ((len - 1 - p) / 4096)

reached_slot : (p len : ℕ) → reached p len % 4096 ≡ p % 4096
unfolding reached
reached_slot p len = add-mul-mod_self_left p 4096 ((len - 1 - p) / 4096)

reached_bounds :
    (p len : ℕ)
    → p < len
    → (p ≤ reached p len) × (reached p len < len) × (len ≤ reached p len + 4096)
unfolding reached
reached_bounds p len h = (omega arith, omega arith, omega arith)

-- A listener that has seen the whole log gets nothing. Any other gets the announcement of its
-- number, or if that was overwritten a later one that the ring still keeps, and goes on behind it.
pub poll-Logs :
    (n : Indicator) (past : List ReadableInfo) (p : ℕ)
    → Logs n past
    → length past + 1 < u64_mod
    → p ≤ length past
    → ((p ≡ length past) × (poll n p ≡ none))
      ⊎ ((info : ReadableInfo) × (get_elem? past (reached p (length past)) ≡ some info)
          × (poll n p ≡ some (info, suc (reached p (length past)))))
unfolding poll
poll-Logs n past p h fits le = elim (dec_lt p (length past)) [
  | no all ↦ inl (omega arith, ground (arith, h.counted))
  | yes lt ↦
      let q = reached p (length past) in
      let (low, high, near) = reached_bounds p (length past) lt in
      let slot = reached_slot p (length past) in
      let number : n.seqs (p % 4096) ≡ q = ap n.seqs (sym slot) ∙ h.numbers q high near in
      let info : some (n.infos (p % 4096)) ≡ get_elem? past q =
        ap (λ i. some (n.infos i)) (sym slot) ∙ h.infos q high near in
      inr (n.infos (p % 4096), sym info, ground (arith, h.counted, number, low, high, fits))
]

-- A listener that has seen all announcements before gets the next one as it is made.
pub poll-notify :
    (n : Indicator) (past : List ReadableInfo) (info : ReadableInfo)
    → Logs n past
    → length past + 1 < u64_mod
    → poll (notify false n info).1 (length past) ≡ some (info, suc (length past))
unfolding poll notify claim_seq put_info put_seq
poll-notify n past info h fits = ground (arith, h.counted)
