-- ===== src/Shm/Transfer/Contents.antt =====
-- The contents of a block after ShmTransmitter wrote a message to it, and as ShmDispatcher finds them.
use hongwei_notebook.Common.{
  ℕ, ◌<◌, ◌≤◌, u64_mod, ◌+◌, Bool, true, ◌≡◌, refl, ap, ◌∙◌, arith, length, drop, ◌++◌, [], ◌∷◌,
  zero, suc, subst, append-nil, length-append,
}
use hongwei_notebook.Common.Map.{Bytes}
use hongwei_notebook.Shm.Memory.{Os, Region}
use hongwei_notebook.Shm.Buffers.{Buffers, Within, Sizes, Shares}
use hongwei_notebook.Shm.Transmitter.{write_block}
use hongwei_notebook.Wire.{id_size, memory_of}
use hongwei_notebook.Wire.Info
use hongwei_notebook.Wire.Info.{MessageInfo}
use hongwei_notebook.Wire.RoundTrip.{serialize_into_lem, restored, info_from-serialize_to}
use hongwei_notebook.Dispatch.Receivers.{on_message}
use hongwei_notebook.Shm.Dispatcher.{ShmDispatcher, read_block, hand_on, adapt, no_info}

drop_full : (bs : Bytes) (n : ℕ) → length bs ≡ n → drop n bs ≡ []
drop_full [] zero e = refl
drop_full [] (suc n) e = absurd (omega (arith, e))
drop_full (x ∷ xs) zero e = absurd (omega (arith, e))
drop_full (x ∷ xs) (suc n) e = drop_full xs n (omega (arith, e))

length-serialize_to :
    (m : MessageInfo)
    → length m.sender_id.content ≡ id_size
    → length m.spare_id.content ≡ id_size
    → length (Info.serialize_to m) ≡ Info.size
unfolding Info.serialize_to
length-serialize_to m s p =
    omega
      (arith, s, p, length-append m.sender_id.content (memory_of 8 m.seq_num ++ m.spare_id.content))

-- Into a buffer of its size, a message info is written whole.
serialize_whole :
    (m : MessageInfo) (dst : Bytes)
    → length dst ≡ Info.size
    → Info.serialize_into m dst ≡ (true, Info.serialize_to m)
serialize_whole m dst e =
    serialize_into_lem m dst ∙ rw (e, drop_full dst Info.size e, append-nil) refl

-- A block of the region at a, its buffer at b, with a message and its info.
pub record Holds {W : Type 0} {os : Os W} {span : ℕ → ℕ} (memory : Buffers os span) (w : W)
    (a i b : ℕ) (msg : Bytes) (info : MessageInfo) : Type 0 where
  pub sized : memory.sizes w a i ≡ record { msg_size = length msg; msg_info_size = Info.size }
  pub msg_bytes : memory.bytes w b (length msg) ≡ msg
  pub info_bytes : memory.bytes w (b + length msg) Info.size ≡ Info.serialize_to info

module _ {W : Type 0} (os : Os W) {span : ℕ → ℕ} (memory : Buffers os span) where
  pub write_block-Holds :
      (w : W) (a i b : ℕ) (msg : Bytes) (info : MessageInfo)
      → Within os span a (os.load w a) b (length msg + Info.size)
      → length info.sender_id.content ≡ id_size
      → length info.spare_id.content ≡ id_size
      → (w' : W) × (write_block os memory w a i b msg (length msg) info ≡ (true, w'))
        × (os.load w' a ≡ os.load w a)
        × Holds memory w' a i b msg info
  unfolding write_block
  write_block-Holds w a i b msg info (behind, room) s p =
      let n = length msg in
      let text = Info.serialize_to info in
      let size = length-serialize_to info s p in
      let w1 = memory.put_bytes w b msg in
      let s1 = record (memory.sizes w1 a i) { msg_size = n } in
      let w2 = memory.put_sizes w1 a i s1 in
      let w3 = memory.put_bytes w2 (b + n) text in
      let s3 = record (memory.sizes w3 a i) { msg_info_size = Info.size } in
      let w4 = memory.put_sizes w3 a i s3 in
      let l1 = memory.load-put_bytes w a b msg (behind, omega (arith, room)) in
      let l2 = memory.load-put_sizes w1 a i s1 ∙ l1 in
      let further : Within os span a (os.load w2 a) (b + n) (length text) =
        rw (l2, size) (omega (arith, behind), omega (arith, room)) in
      let l3 = memory.load-put_bytes w2 a (b + n) text further ∙ l2 in
      let whole =
        serialize_whole info (memory.bytes w2 (b + n) Info.size)
          (memory.length-bytes w2 (b + n) Info.size) in
      let size_kept = memory.sizes-put_bytes w2 a i (b + n) text further in
      (
        w4,
        rw whole refl,
        memory.load-put_sizes w3 a i s3 ∙ l3,
        record {
          sized =
              memory.sizes-put_sizes w3 a i s3
              ∙ ap (λ (z : Sizes). record z { msg_info_size = Info.size })
                  (size_kept ∙ memory.sizes-put_sizes w1 a i s1);
          msg_bytes =
              memory.bytes-put_sizes w3 a i b n s3 (rw l3 (behind, omega (arith, room)))
              ∙ (memory.bytes_before w2 a b n (b + n) text (omega (arith, behind)) (omega arith)
                    (omega (arith, room, size))
                  ∙ (memory.bytes-put_sizes w1 a i b n s1 (rw l1 (behind, omega (arith, room)))
                      ∙ memory.bytes-put_bytes w a b msg (omega (arith, behind))
                          (omega (arith, room))));
          info_bytes =
              memory.bytes-put_sizes w3 a i (b + n) Info.size s3
                (rw l3 (omega (arith, behind), omega (arith, room)))
              ∙ subst (λ m. memory.bytes w3 (b + n) m ≡ text) size
                  (memory.bytes-put_bytes w2 a (b + n) text (omega (arith, behind))
                    (omega (arith, room, size)));
        },
      )

  -- A change of the locks leaves the contents, and the other mapping of the region shows the same.
  pub Holds-save :
      (w : W) (a i b : ℕ) (msg : Bytes) (info : MessageInfo) (r : Region)
      → Within os span a r b (length msg + Info.size)
      → Holds memory w a i b msg info
      → Holds memory (os.save w a r) a i b msg info
  Holds-save w a i b msg info r (behind, room) h = record {
    sized = memory.sizes-save w a i r ∙ h.sized;
    msg_bytes = memory.bytes-save w a b (length msg) r (behind, omega (arith, room)) ∙ h.msg_bytes;
    info_bytes =
        memory.bytes-save w a (b + length msg) Info.size r
          (omega (arith, behind), omega (arith, room))
        ∙ h.info_bytes;
  }

  pub Holds-shared :
      (w : W) (a a' i d : ℕ) (msg : Bytes) (info : MessageInfo)
      → Shares os memory a a'
      → d + (length msg + Info.size) ≤ span a
      → d + (length msg + Info.size) ≤ span a'
      → Holds memory w a i (a + d) msg info
      → Holds memory w a' i (a' + d) msg info
  Holds-shared w a a' i d msg info same room room' h = record {
    sized = same.sizes_shared w i ∙ h.sized;
    msg_bytes =
        same.bytes_shared w d (length msg) (omega (arith, room)) (omega (arith, room'))
        ∙ h.msg_bytes;
    info_bytes =
        ap (λ k. memory.bytes w k Info.size) (omega arith)
        ∙ (same.bytes_shared w (d + length msg) Info.size (omega (arith, room))
              (omega (arith, room'))
            ∙ (ap (λ k. memory.bytes w k Info.size) (omega arith) ∙ h.info_bytes));
  }

-- A message info as it is received: the hash values are computed anew, and the channel is not sent.
abbrev pub received : (Bytes → ℕ) → MessageInfo → MessageInfo
received hash info = record {
  sender_id = restored hash info.sender_id.content;
  channel_id = 0;
  seq_num = info.seq_num;
  spare_id = restored hash info.spare_id.content;
}

module _ {W L : Type 0} (os : Os W) {span : ℕ → ℕ} (memory : Buffers os span) (hash : Bytes → ℕ)
    (parses : L → Bytes → Bool) where
  pub read_block-Holds :
      (d : ShmDispatcher L) (channel : ℕ) (w : W) (a i b : ℕ) (msg : Bytes) (info : MessageInfo)
      → Holds memory w a i b msg info
      → length info.sender_id.content ≡ id_size
      → length info.spare_id.content ≡ id_size
      → info.seq_num < u64_mod
      → let o = on_message d.dispatcher channel (hash info.sender_id.content) in
        read_block os memory hash parses d channel w a i b
        ≡ (record d { dispatcher = o.0 }, adapt parses o.1 msg (received hash info))
  unfolding read_block hand_on
  read_block-Holds d channel w a i b msg info h s p q =
      let hands = hand_on os memory hash parses d channel in
      let parse = Info.deserialize_from hash no_info in
      ap
        (λ z.
          hands (parse (memory.bytes w (b + z.msg_size) z.msg_info_size))
            (memory.bytes w b z.msg_size))
        h.sized
      ∙ (ap (λ t. hands (parse t) (memory.bytes w b (length msg))) h.info_bytes
          ∙ (ap (hands (parse (Info.serialize_to info))) h.msg_bytes
              ∙ ap (λ r. hands r msg) (info_from-serialize_to hash info no_info s p q)))
