-- ===== src/Dispatch/Handler/Ports.antt =====
-- A signal together with the connections to it by key: the part of a ListenerHandler that serves all
-- messages, or the messages of one sender.
use hongwei_notebook.Common.{
  ℕ, ◌+◌, ◌<◌, ◌≡◌, refl, ◌≢◌, true, false, List, [], ◌∷◌, ◌++◌, none, some, arith, if◌then◌else◌,
  ◌==◌, ◌∙◌, Bool-cases, inl, inr,
}
use hongwei_notebook.Common.Map.{nat_eq, lookup, insert, erase}
use hongwei_notebook.Base.Signal.{
  Signal, Slot, remove_disconnected, run_slots, disconnect_slot, has_slot, is_connected_in,
}
use hongwei_notebook.Dispatch.Handler.{ConnectionMap}

-- The listeners that are connected, oldest first: the key, the slot and the callback of each.
pub record Port (L : Type 0) : Type 0 where
  pub key : ℕ
  pub pointer : ℕ
  pub cb : L

module _ {L : Type 0} where
  abbrev pub slots_of : List (Port L) → List (Slot L)
  slots_of [] = []
  slots_of (p ∷ ps) = record { pointer = p.pointer; cb = p.cb; connected = true } ∷ slots_of ps

  abbrev pub keys_of : List (Port L) → ConnectionMap
  keys_of [] = []
  keys_of (p ∷ ps) = (p.key, p.pointer) ∷ keys_of ps

  -- What the listeners are, as a list of a key and a callback each.
  abbrev pub listed : List (Port L) → List (ℕ × L)
  listed [] = []
  listed (p ∷ ps) = (p.key, p.cb) ∷ listed ps

  abbrev pub values : List (ℕ × L) → List L
  values [] = []
  values ((k, l) ∷ r) = l ∷ values r

  -- No slot of the list is one that the signal will make, and all are different.
  abbrev pub Below : ℕ → List (Port L) → Type 0
  Below n [] = Unit {0}
  Below n (p ∷ ps) = (p.pointer < n) × Below n ps

  abbrev pub Apart : List (Port L) → Type 0
  Apart [] = Unit {0}
  Apart (p ∷ ps) =
      (has_slot p.pointer (slots_of ps) ≡ false) × (lookup p.key (keys_of ps) ≡ none) × Apart ps

  pub record Serves (ps : List (Port L)) (s : Signal L) (c : ConnectionMap) : Type 0 where
    pub slots : s.slots ≡ slots_of ps
    pub conns : c ≡ keys_of ps
    pub below : Below s.next ps
    pub apart : Apart ps

  abbrev pub without : ℕ → List (Port L) → List (Port L)
  without k [] = []
  without k (p ∷ ps) = if p.key == k then without k ps else p ∷ without k ps

  pub slots_of-append : (ps qs : List (Port L)) → slots_of (ps ++ qs) ≡ slots_of ps ++ slots_of qs
  slots_of-append [] qs = refl
  slots_of-append (p ∷ ps) qs = rw (slots_of-append ps qs) refl

  pub keys_of-append : (ps qs : List (Port L)) → keys_of (ps ++ qs) ≡ keys_of ps ++ keys_of qs
  keys_of-append [] qs = refl
  keys_of-append (p ∷ ps) qs = rw (keys_of-append ps qs) refl

  pub listed-append : (ps qs : List (Port L)) → listed (ps ++ qs) ≡ listed ps ++ listed qs
  listed-append [] qs = refl
  listed-append (p ∷ ps) qs = rw (listed-append ps qs) refl

  pub Below-append :
      (n : ℕ) (ps : List (Port L)) (p : Port L)
      → Below n ps
      → p.pointer ≡ n
      → Below (n + 1) (ps ++ (p ∷ []))
  Below-append n [] p b e = (omega (arith, e), tt)
  Below-append n (q ∷ ps) p b e = (omega (arith, b.0), Below-append n ps p b.1 e)

  has_slot-append :
      (n : ℕ) (ps : List (Port L)) (p : Port L)
      → n ≢ p.pointer
      → has_slot n (slots_of (ps ++ (p ∷ []))) ≡ has_slot n (slots_of ps)
  unfolding has_slot
  has_slot-append n [] p ne = ground (arith, ne)
  has_slot-append n (q ∷ ps) p ne = rw (has_slot-append n ps p ne) refl

  lookup-append :
      (k : ℕ) (ps : List (Port L)) (p : Port L)
      → k ≢ p.key
      → lookup k (keys_of (ps ++ (p ∷ []))) ≡ lookup k (keys_of ps)
  unfolding lookup
  lookup-append k [] p ne = ground (arith, ne)
  lookup-append k (q ∷ ps) p ne = rw (lookup-append k ps p ne) refl

  pub Apart-append :
      (n : ℕ) (ps : List (Port L)) (p : Port L)
      → Apart ps
      → Below n ps
      → p.pointer ≡ n
      → lookup p.key (keys_of ps) ≡ none
      → Apart (ps ++ (p ∷ []))
  unfolding lookup has_slot
  Apart-append n [] p a b e new = (refl, refl, tt)
  Apart-append n (q ∷ ps) p a b e new = (
    has_slot-append q.pointer ps p (ground (arith, b.0, e)) ∙ a.0,
    lookup-append q.key ps p (ground (arith, new)) ∙ a.1,
    Apart-append n ps p a.2 b.1 e (ground (arith, new)),
  )

  pub insert_new :
      (k c : ℕ) (ps : List (Port L))
      → lookup k (keys_of ps) ≡ none
      → insert k c (keys_of ps) ≡ keys_of ps ++ ((k, c) ∷ [])
  unfolding insert lookup
  insert_new k c [] new = refl
  insert_new k c (p ∷ ps) new = ground (arith, new, insert_new k c ps)

  pub connected_last :
      (n : ℕ) (l : L) (ps : List (Port L))
      → Below n ps
      → is_connected_in n (slots_of ps ++ (record { pointer = n; cb = l; connected = true } ∷ []))
        ≡ true
  unfolding is_connected_in
  connected_last n l [] b = ground arith
  connected_last n l (p ∷ ps) b = ground (arith, b.0, connected_last n l ps)

  pub erase-keys_of : (k : ℕ) (ps : List (Port L)) → erase k (keys_of ps) ≡ keys_of (without k ps)
  unfolding erase
  erase-keys_of k [] = refl
  erase-keys_of k (p ∷ ps) = ground (arith, erase-keys_of k ps)

  pub erase-listed : (k : ℕ) (ps : List (Port L)) → erase k (listed ps) ≡ listed (without k ps)
  unfolding erase
  erase-listed k [] = refl
  erase-listed k (p ∷ ps) = ground (arith, erase-listed k ps)

  pub Below-without : (n k : ℕ) (ps : List (Port L)) → Below n ps → Below n (without k ps)
  Below-without n k [] b = tt
  Below-without n k (p ∷ ps) b = ground (arith, Below-without n k ps b.1)

  has_slot-without :
      (n k : ℕ) (ps : List (Port L))
      → has_slot n (slots_of ps) ≡ false
      → has_slot n (slots_of (without k ps)) ≡ false
  unfolding has_slot
  has_slot-without n k [] e = refl
  has_slot-without n k (p ∷ ps) e = ground (arith, has_slot-without n k ps)

  lookup-without :
      (j k : ℕ) (ps : List (Port L))
      → lookup j (keys_of ps) ≡ none
      → lookup j (keys_of (without k ps)) ≡ none
  unfolding lookup
  lookup-without j k [] e = refl
  lookup-without j k (p ∷ ps) e = ground (arith, lookup-without j k ps)

  pub Apart-without : (k : ℕ) (ps : List (Port L)) → Apart ps → Apart (without k ps)
  Apart-without k [] a = tt
  Apart-without k (p ∷ ps) a = elim (Bool-cases (p.key == k)) [
    | inl hit ↦ rw hit (Apart-without k ps a.2)
    | inr miss ↦
        rw miss (
          has_slot-without p.pointer k ps a.0,
          lookup-without p.key k ps a.1,
          Apart-without k ps a.2,
        )
  ]

  -- A key that is not there, and a slot that is not there.
  pub without_absent :
      (k : ℕ) (ps : List (Port L)) → lookup k (keys_of ps) ≡ none → without k ps ≡ ps
  unfolding lookup
  without_absent k [] e = refl
  without_absent k (p ∷ ps) e = ground (arith, without_absent k ps)

  pub remove_disconnected-slots_of :
      (ps : List (Port L)) → remove_disconnected (slots_of ps) ≡ slots_of ps
  unfolding remove_disconnected
  remove_disconnected-slots_of [] = refl
  remove_disconnected-slots_of (p ∷ ps) = rw (remove_disconnected-slots_of ps) refl

  disconnect_absent :
      (n : ℕ) (ps : List (Port L))
      → has_slot n (slots_of ps) ≡ false
      → disconnect_slot n (slots_of ps) ≡ slots_of ps
  unfolding disconnect_slot has_slot
  disconnect_absent n [] e = refl
  disconnect_absent n (p ∷ ps) e = ground (arith, disconnect_absent n ps)

  pub slot_of_key :
      (k conn : ℕ) (ps : List (Port L))
      → lookup k (keys_of ps) ≡ some conn
      → has_slot conn (slots_of ps) ≡ true
  unfolding lookup has_slot
  slot_of_key k conn [] e = cc
  slot_of_key k conn (p ∷ ps) e = ground (arith, slot_of_key k conn ps)

  pub disconnects :
      (k conn : ℕ) (ps : List (Port L))
      → Apart ps
      → lookup k (keys_of ps) ≡ some conn
      → remove_disconnected (disconnect_slot conn (slots_of ps)) ≡ slots_of (without k ps)
  unfolding lookup remove_disconnected disconnect_slot has_slot
  disconnects k conn [] a e = cc
  disconnects k conn (p ∷ ps) a e = elim (Bool-cases (p.key == k)) [
    | inl hit ↦
        let same : p.pointer ≡ conn = ground (arith, e, hit) in
        let mine : p.key ≡ k = ground (arith, hit) in
        ground (
          arith,
          same,
          mine,
          hit,
          disconnect_absent p.pointer ps a.0,
          remove_disconnected-slots_of ps,
          without_absent p.key ps a.1,
        )
    | inr miss ↦
        let rest : lookup k (keys_of ps) ≡ some conn = ground (arith, e, miss) in
        let other : p.pointer ≢ conn = λ q. ground (arith, slot_of_key k conn ps rest, a.0, q) in
        ground (arith, miss, other, disconnects k conn ps a.2 rest)
  ]

  pub run_slots-slots_of : (ps : List (Port L)) → run_slots (slots_of ps) ≡ values (listed ps)
  unfolding run_slots
  run_slots-slots_of [] = refl
  run_slots-slots_of (p ∷ ps) = rw (run_slots-slots_of ps) refl
