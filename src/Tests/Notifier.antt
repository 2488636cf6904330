-- ===== src/Tests/Notifier.antt =====
-- The notifier at concrete inputs: two announcements, and the timeout of a listener.
use hongwei_notebook.Common.{
  ℕ, suc, ◌≡◌, refl, ◌⊎◌, false, [], ◌∷◌, ◌++◌, none, some, arith, get_elem?, length,
}
use hongwei_notebook.Shm.Notifier.{
  ReadableInfo, Indicator, claim_seq, put_info, put_seq, notify, poll,
}
use hongwei_notebook.Shm.Notifier.Log.{Logs, notify-Logs, poll-Logs, reached}
use hongwei_notebook.Shm.Notifier.Listen.{poll_unwritten}

abbrev info : ℕ → ReadableInfo
info block = record { host_id = 1; block_index = block; channel_id = 9 }

abbrev fresh : Indicator
fresh = record { next_seq = 0; infos = λ _. info 0; seqs = λ _. 0 }

fresh-Logs : Logs fresh []
fresh-Logs = record {
  counted = refl;
  numbers = λ i lt near. absurd (omega arith);
  infos = λ i lt near. absurd (omega arith);
}

abbrev once : Indicator
once = (notify false fresh (info 5)).1

once-Logs : Logs once ([] ++ info 5 ∷ [])
once-Logs = notify-Logs fresh [] (info 5) fresh-Logs (omega arith)

notify-Logs_example : Logs once ([] ++ info 5 ∷ [])
notify-Logs_example = notify-Logs fresh [] (info 5) fresh-Logs (omega arith)

poll-Logs_example :
    ((0 ≡ length (info 5 ∷ [])) × (poll once 0 ≡ none))
    ⊎ ((i : ReadableInfo) × (get_elem? (info 5 ∷ []) (reached 0 1) ≡ some i)
        × (poll once 0 ≡ some (i, suc (reached 0 1))))
poll-Logs_example = poll-Logs once (info 5 ∷ []) 0 once-Logs (omega arith) (omega arith)

first_announcement : poll once 0 ≡ some (info 5, 1)
unfolding poll notify claim_seq put_info put_seq
first_announcement = refl

poll_unwritten_example : poll (claim_seq fresh).1 0 ≡ some (info 0, 1)
poll_unwritten_example = poll_unwritten fresh refl refl
