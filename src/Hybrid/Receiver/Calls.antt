-- ===== src/Hybrid/Receiver/Calls.antt =====
-- The calls of a HybridReceiver by their branches, and the transmitters that it knows after them.
use hongwei_notebook.Common.{
  ℕ, ◌≡◌, refl, Bool, true, false, List, [], ◌∷◌, Option, none, some, ◌==◌, ==_iff, arith,
  if◌then◌else◌, ◌&&◌, Bool-cases, Option-cases, inl, inr,
}
use hongwei_notebook.Common.Map.{nat_eq, has, insert, erase, lookup-insert, lookup-erase}
use hongwei_notebook.Hybrid.{
  OptionalMode, mode_beq, mode_beq_iff, CommunicationMode, EndAttributes, route, at_mode,
}
use hongwei_notebook.Hybrid.Receiver.{
  HybridReceiver, enable, disable, Low, low_enable_to, low_disable_from, receive_history,
}

pub data Call : Type 0 where
  enables : EndAttributes → Call
  disables : EndAttributes → Call

unfoldable pub call : HybridReceiver → Call → HybridReceiver × List Low
call r (enables opposite) = enable r opposite
call r (disables opposite) = disable r opposite

abbrev pub routes_to : Option OptionalMode → OptionalMode → Bool
routes_to none m = false
routes_to (some k) m = mode_beq k m

-- Whether the last of some calls about a transmitter that is met by a mode enables it.
unfoldable pub is_live :
    CommunicationMode → EndAttributes → OptionalMode → ℕ → Bool → List Call → Bool
is_live mode own m id before [] = before
is_live mode own m id before (enables o ∷ cs) =
    is_live mode own m id (if routes_to (route mode own o) m && o.id == id then true else before) cs
is_live mode own m id before (disables o ∷ cs) =
    is_live mode own m id (if routes_to (route mode own o) m && o.id == id then false else before)
      cs

pub has-insert :
    {V : Type 0} (k j : ℕ) (v : V) (l : List (ℕ × V))
    → has j (insert k v l) ≡ (if k == j then true else has j l)
unfolding has
has-insert k j v l = ground (arith, lookup-insert k j v l)

pub has-erase :
    {V : Type 0} (k j : ℕ) (l : List (ℕ × V))
    → has j (erase k l) ≡ (if k == j then false else has j l)
unfolding has
has-erase k j l = ground (arith, lookup-erase k j l)

pub enable_new :
    (r : HybridReceiver) (o : EndAttributes) (k : OptionalMode)
    → route r.mode r.attr o ≡ some k
    → has o.id (r.transmitters k) ≡ false
    → enable r o ≡ (
      record r { transmitters = at_mode r.transmitters k (insert o.id o (r.transmitters k)) },
      low_enable_to k o ∷ receive_history r o,
    )
unfolding enable
enable_new r o k e new = ground (arith, e, new)

pub enable_old :
    (r : HybridReceiver) (o : EndAttributes) (k : OptionalMode)
    → route r.mode r.attr o ≡ some k
    → has o.id (r.transmitters k) ≡ true
    → enable r o ≡ (r, [])
unfolding enable
enable_old r o k e old = ground (arith, e, old)

pub enable_unrelated :
    (r : HybridReceiver) (o : EndAttributes) → route r.mode r.attr o ≡ none → enable r o ≡ (r, [])
unfolding enable
enable_unrelated r o e = ground (arith, e)

pub disable_old :
    (r : HybridReceiver) (o : EndAttributes) (k : OptionalMode)
    → route r.mode r.attr o ≡ some k
    → has o.id (r.transmitters k) ≡ true
    → disable r o ≡ (
      record r { transmitters = at_mode r.transmitters k (erase o.id (r.transmitters k)) },
      low_disable_from k o ∷ [],
    )
unfolding disable
disable_old r o k e old = ground (arith, e, old)

pub disable_new :
    (r : HybridReceiver) (o : EndAttributes) (k : OptionalMode)
    → route r.mode r.attr o ≡ some k
    → has o.id (r.transmitters k) ≡ false
    → disable r o ≡ (r, [])
unfolding disable
disable_new r o k e new = ground (arith, e, new)

pub disable_unrelated :
    (r : HybridReceiver) (o : EndAttributes) → route r.mode r.attr o ≡ none → disable r o ≡ (r, [])
unfolding disable
disable_unrelated r o e = ground (arith, e)

-- One call, and whether a transmitter is known after it.
pub fixed :
    (r : HybridReceiver) (c : Call) → ((call r c).0.mode ≡ r.mode) × ((call r c).0.attr ≡ r.attr)
unfolding call enable disable
fixed r (enables o) = ground arith
fixed r (disables o) = ground arith

known-enable :
    (r : HybridReceiver) (o : EndAttributes) (m : OptionalMode) (id : ℕ)
    → has id ((enable r o).0.transmitters m) ≡ (
        if routes_to (route r.mode r.attr o) m && o.id == id
        then true
        else has id (r.transmitters m))
known-enable r o m id = elim (Option-cases (route r.mode r.attr o)) [
  | inl out ↦ rw (enable_unrelated r o out, out) refl
  | inr (k, e) ↦ elim (Bool-cases (has o.id (r.transmitters k))) [
    | inl old ↦
        rw (enable_old r o k e old, e) (ground (arith, mode_beq_iff k m, ==_iff o.id id, old))
    | inr new ↦
        rw (enable_new r o k e new, e)
          (ground (arith, mode_beq_iff k m, has-insert o.id id o (r.transmitters k)))
  ]
]

known-disable :
    (r : HybridReceiver) (o : EndAttributes) (m : OptionalMode) (id : ℕ)
    → has id ((disable r o).0.transmitters m) ≡ (
        if routes_to (route r.mode r.attr o) m && o.id == id
        then false
        else has id (r.transmitters m))
known-disable r o m id = elim (Option-cases (route r.mode r.attr o)) [
  | inl out ↦ rw (disable_unrelated r o out, out) refl
  | inr (k, e) ↦ elim (Bool-cases (has o.id (r.transmitters k))) [
    | inl old ↦
        rw (disable_old r o k e old, e)
          (ground (arith, mode_beq_iff k m, has-erase o.id id (r.transmitters k)))
    | inr new ↦
        rw (disable_new r o k e new, e) (ground (arith, mode_beq_iff k m, ==_iff o.id id, new))
  ]
]

pub known-call :
    (r : HybridReceiver) (c : Call) (m : OptionalMode) (id : ℕ)
    → has id ((call r c).0.transmitters m)
      ≡ is_live r.mode r.attr m id (has id (r.transmitters m)) (c ∷ [])
unfolding call is_live
known-call r (enables o) m id = known-enable r o m id
known-call r (disables o) m id = known-disable r o m id

pub is_live-cons :
    (mode : CommunicationMode) (own : EndAttributes) (m : OptionalMode) (id : ℕ) (b : Bool)
    (c : Call) (cs : List Call)
    → is_live mode own m id b (c ∷ cs) ≡ is_live mode own m id (is_live mode own m id b (c ∷ [])) cs
unfolding is_live
is_live-cons mode own m id b (enables o) cs = refl
is_live-cons mode own m id b (disables o) cs = refl
