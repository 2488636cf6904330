-- ===== src/Shm/Notifier.antt =====
-- ConditionNotifier of IntelligentDriving/my_cyber/transport/shm/condition_notifier.cc: a ring in
-- shared memory through which writers announce blocks to the listeners of all processes.
pub mod Log
pub mod Listen
use hongwei_notebook.Common.{
  ℕ, zero, suc, ◌+◌, ◌-◌, ◌*◌, ◌/◌, ◌%◌, Bool, true, false, Option, none, some, add64,
  if◌then◌else◌, ◌==◌, leb, ltb,
}

pub record ReadableInfo : Type 0 where
  pub host_id : ℕ
  pub block_index : ℕ
  pub channel_id : ℕ

abbrev pub buf_length : ℕ
buf_length = 4096

-- The arrays have `buf_length` elements; every index below is smaller.
pub record Indicator : Type 0 where
  pub next_seq : ℕ
  pub infos : ℕ → ReadableInfo
  pub seqs : ℕ → ℕ

abbrev pub put : {A : Type 0} → (ℕ → A) → ℕ → A → ℕ → A
put f i a j = if j == i then a else f j

-- The three accesses of Notify: the number is claimed, and then the information and the number are
-- written.
unfoldable pub claim_seq : Indicator → ℕ × Indicator
claim_seq n = (n.next_seq, record n { next_seq = add64 n.next_seq 1 })

unfoldable pub put_info : Indicator → ℕ → ReadableInfo → Indicator
put_info n seq info = record n { infos = put n.infos (seq % buf_length) info }

unfoldable pub put_seq : Indicator → ℕ → Indicator
put_seq n seq = record n { seqs = put n.seqs (seq % buf_length) seq }

unfoldable pub notify : Bool → Indicator → ReadableInfo → Bool × Indicator
unfolding claim_seq put_info put_seq
notify is_shutdown n info =
    if is_shutdown
    then (false, n)
    else (let (seq, n') = claim_seq n in (true, put_seq (put_info n' seq info) seq))

-- The body of the loop of Listen: what it returns, with the listener's next number.
unfoldable pub poll : Indicator → ℕ → Option (ReadableInfo × ℕ)
poll n next_seq =
    if n.next_seq == next_seq
    then none
    else (let index = next_seq % buf_length in
        let actual = n.seqs index in
        if leb next_seq actual then some (n.infos index, add64 actual 1) else none)

-- The loop. Round i finds the flag and the ring of `world i`; a negative timeout is as good as 0.
-- The outer `none` is a loop whose fuel is used up.
pub listen_from : ℕ → (ℕ → Bool × Indicator) → ℕ → ℕ → ℕ → Option (Option (ReadableInfo × ℕ))
listen_from zero world round timeout_us next_seq = none
listen_from (suc fuel) world round timeout_us next_seq =
    let (is_shutdown, n) = world round in
    elim is_shutdown [
      | true ↦ some none
      | false ↦ elim (poll n next_seq) [
        | some got ↦ some (some got)
        | none ↦ elim (ltb 0 timeout_us) [
          | true ↦ listen_from fuel world (suc round) (timeout_us - 50) next_seq
          | false ↦ some none
        ]
      ]
    ]

-- A round takes 50 microseconds off the timeout; the last one finds none left.
pub listen : (ℕ → Bool × Indicator) → ℕ → ℕ → Option (Option (ReadableInfo × ℕ))
unfolding listen_from
listen world timeout_ms next_seq =
    listen_from (timeout_ms * 1000 / 50 + 2) world 0 (timeout_ms * 1000) next_seq
