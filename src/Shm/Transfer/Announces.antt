-- ===== src/Shm/Transfer/Announces.antt =====
-- What Transmit of ShmTransmitter announces, whatever happens in it.
use hongwei_notebook.Common.{
  ℕ, Bool, true, false, Option, none, some, ◌≡◌, ◌⊎◌, inl, inr, refl, Bool-cases, Option-cases,
}
use hongwei_notebook.Common.Map.{Bytes}
use hongwei_notebook.Shm.Memory.{Os}
use hongwei_notebook.Shm.Buffers.{Buffers}
use hongwei_notebook.Shm.Segment.{Segment, WritableBlock}
use hongwei_notebook.Shm.Segment.Access.{
  Outcome, returns, undefined, unfinished, acquire_block_to_write,
}
use hongwei_notebook.Shm.Notifier.{Indicator, notify}
use hongwei_notebook.Shm.Transmitter.{ShmTransmitter, transmit, write_message}
use hongwei_notebook.Wire.Info.{MessageInfo}

-- The result of Transmit against the ring before: nothing was announced and the result is false, or
-- just one block of the transmitter's channel and host was.
abbrev pub Announces :
    {W : Type 0}
    → ShmTransmitter
    → Indicator
    → Outcome (Bool × ShmTransmitter × W × Indicator)
    → Type 0
Announces t ring undefined = Unit {0}
Announces t ring unfinished = Unit {0}
Announces t ring (returns (ok, t', w', ring')) =
    ((ok ≡ false) × (ring' ≡ ring))
    ⊎ ((ok ≡ true)
        × (i : ℕ) × (ring'
            ≡ (notify false ring
                (record { host_id = t.host_id; block_index = i; channel_id = t.channel_id })).1))

module _ {W : Type 0} (os : Os W) {span : ℕ → ℕ} (memory : Buffers os span) (fuel : ℕ)
    (spurious : ℕ → Bool) (t : ShmTransmitter) (size : ℕ) (text : Option Bytes) (info : MessageInfo)
    (w : W) (ring : Indicator) where
  after_writing :
      (is_shutdown : Bool) (s s' : Segment) (wb : WritableBlock) (w' : W)
      (written : Option (Bool × W))
      → t.enabled ≡ true
      → t.segment ≡ some s
      → acquire_block_to_write os fuel spurious size s w ≡ returns (some wb, s', w')
      → write_message os memory wb s' w' size text info ≡ written
      → Announces t ring (transmit os memory fuel spurious t size text info w is_shutdown ring)
  unfolding transmit notify
  after_writing is_shutdown s s' wb w' none on at acquired e = rw (on, at, acquired, e) tt
  after_writing is_shutdown s s' wb w' (some (false, w'')) on at acquired e =
      rw (on, at, acquired, e) (inl (refl, refl))
  after_writing true s s' wb w' (some (true, w'')) on at acquired e =
      rw (on, at, acquired, e) (inl (refl, refl))
  after_writing false s s' wb w' (some (true, w'')) on at acquired e =
      rw (on, at, acquired, e) (inr (refl, wb.index, refl))

  after_acquiring :
      (is_shutdown : Bool) (s : Segment) (o : Outcome (Option WritableBlock × Segment × W))
      → t.enabled ≡ true
      → t.segment ≡ some s
      → acquire_block_to_write os fuel spurious size s w ≡ o
      → Announces t ring (transmit os memory fuel spurious t size text info w is_shutdown ring)
  unfolding transmit
  after_acquiring is_shutdown s undefined on at e = rw (on, at, e) tt
  after_acquiring is_shutdown s unfinished on at e = rw (on, at, e) tt
  after_acquiring is_shutdown s (returns (none, s', w')) on at e = rw (on, at, e) (inl (refl, refl))
  after_acquiring is_shutdown s (returns (some wb, s', w')) on at e =
      after_writing is_shutdown s s' wb w' _ on at e refl

  -- Whatever the operating system answers and whether or not the message can be serialised: if Transmit
  -- returns, then it returns false and has announced nothing, or it returns true and has announced just
  -- one block, for its own host and channel.
  pub transmit-Announces :
      (is_shutdown : Bool)
      → Announces t ring (transmit os memory fuel spurious t size text info w is_shutdown ring)
  unfolding transmit
  transmit-Announces is_shutdown = elim (Bool-cases t.enabled) [
    | inr off ↦ rw off (inl (refl, refl))
    | inl on ↦ elim (Option-cases t.segment) [
      | inl missing ↦ rw (on, missing) tt
      | inr (s, at) ↦ after_acquiring is_shutdown s _ on at refl
    ]
  ]
