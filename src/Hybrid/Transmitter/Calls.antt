-- ===== src/Hybrid/Transmitter/Calls.antt =====
-- The calls of a HybridTransmitter, and what each does to the sets of receivers and to the modes.
use hongwei_notebook.Common.{
  ℕ, ◌≡◌, refl, Bool, true, false, not, List, [], ◌∷◌, Option, none, some, ◌==◌, ==_iff, arith,
  if◌then◌else◌, ◌&&◌, ◌||◌, Bool-cases, inl, inr,
}
use hongwei_notebook.Hybrid.{
  OptionalMode, mode_beq, mode_beq_iff, EndAttributes, CommunicationMode, route, at_mode,
  mapping_table, Relation, no_relation, same_process, diff_process, diff_hosts,
}
use hongwei_notebook.Hybrid.Transmitter.{
  HybridTransmitter, enable, disable, transmit, member, set_insert, set_erase, is_empty, in_use,
  switch,
}

pub data Call (A : Type 0) : Type 0 where
  enables : EndAttributes → Call A
  disables : EndAttributes → Call A
  transmits : A → Call A

abbrev pub routes_to : Option OptionalMode → OptionalMode → Bool
routes_to none m = false
routes_to (some k) m = mode_beq k m

module _ {A : Type 0} where
  unfoldable pub call : HybridTransmitter A → Call A → HybridTransmitter A
  call t (enables opposite) = (enable t opposite).0
  call t (disables opposite) = disable t opposite
  call t (transmits msg) = (transmit t msg).0

  unfoldable pub call_all : HybridTransmitter A → List (Call A) → HybridTransmitter A
  unfolding call
  call_all t [] = t
  call_all t (c ∷ cs) = call_all (call t c) cs

  -- Whether the last of some calls about a receiver that is met by a mode enables it.
  unfoldable pub is_live :
      CommunicationMode → EndAttributes → OptionalMode → ℕ → Bool → List (Call A) → Bool
  is_live mode own m id before [] = before
  is_live mode own m id before (enables o ∷ cs) =
      is_live mode own m id (if routes_to (route mode own o) m && o.id == id then true else before)
        cs
  is_live mode own m id before (disables o ∷ cs) =
      is_live mode own m id (if routes_to (route mode own o) m && o.id == id then false else before)
        cs
  is_live mode own m id before (transmits msg ∷ cs) = is_live mode own m id before cs

  -- A mode is enabled while a receiver is there, and only modes that are in use have receivers.
  pub record IsReady (t : HybridTransmitter A) : Type 0 where
    pub there :
        (m : OptionalMode)
        → t.transmitters m
          ≡ (if in_use t.mode m then some (not (is_empty (t.receivers m))) else none)
    pub unused : (m : OptionalMode) → in_use t.mode m ≡ false → t.receivers m ≡ []

pub member-set_insert :
    (k id : ℕ) (xs : List ℕ) → member id (set_insert k xs) ≡ (k == id || member id xs)
unfolding set_insert member
member-set_insert k id xs = elim (Bool-cases (member k xs)) [
  | inl old ↦ ground (arith, old, ==_iff k id)
  | inr new ↦ ground (arith, new)
]

pub member-set_erase :
    (k id : ℕ) (xs : List ℕ)
    → member id (set_erase k xs) ≡ (if k == id then false else member id xs)
unfolding set_erase member
member-set_erase k id [] = ground arith
member-set_erase k id (x ∷ xs) =
    ground (arith, ==_iff x k, ==_iff x id, ==_iff k id, member-set_erase k id xs)

pub set_insert_some : (k : ℕ) (xs : List ℕ) → is_empty (set_insert k xs) ≡ false
unfolding set_insert member
set_insert_some k [] = refl
set_insert_some k (x ∷ xs) = ground arith

pub set_erase_some : (k : ℕ) (xs : List ℕ) → is_empty (set_erase k xs) ≡ false → is_empty xs ≡ false
unfolding set_erase
set_erase_some k [] e = cc
set_erase_some k (x ∷ xs) e = refl

pub table-in_use :
    (mode : CommunicationMode) (r : Relation) (m : OptionalMode)
    → mapping_table mode r ≡ some m
    → in_use mode m ≡ true
unfolding in_use mapping_table
table-in_use mode no_relation m e = cc
table-in_use mode same_process m e = ground (arith, mode_beq_iff mode.same_proc m)
table-in_use mode diff_process m e = ground (arith, mode_beq_iff mode.diff_proc m)
table-in_use mode diff_hosts m e = ground (arith, mode_beq_iff mode.diff_host m)

module _ {A : Type 0} where
  pub enable_routed :
      (t : HybridTransmitter A) (o : EndAttributes) (k : OptionalMode)
      → route t.mode t.attr o ≡ some k
      → (enable t o).0 ≡ record t {
        receivers = at_mode t.receivers k (set_insert o.id (t.receivers k));
        transmitters = at_mode t.transmitters k (switch true (t.transmitters k));
      }
  unfolding enable
  enable_routed t o k e = ground (arith, e)

  pub enable_unrelated :
      (t : HybridTransmitter A) (o : EndAttributes)
      → route t.mode t.attr o ≡ none
      → (enable t o).0 ≡ t
  unfolding enable
  enable_unrelated t o e = ground (arith, e)

  pub disable_routed :
      (t : HybridTransmitter A) (o : EndAttributes) (k : OptionalMode)
      → route t.mode t.attr o ≡ some k
      → disable t o ≡ record t {
        receivers = at_mode t.receivers k (set_erase o.id (t.receivers k));
        transmitters =
            if is_empty (set_erase o.id (t.receivers k))
            then at_mode t.transmitters k (switch false (t.transmitters k))
            else t.transmitters;
      }
  unfolding disable
  disable_routed t o k e = ground (arith, e)

  pub disable_unrelated :
      (t : HybridTransmitter A) (o : EndAttributes) → route t.mode t.attr o ≡ none → disable t o ≡ t
  unfolding disable
  disable_unrelated t o e = ground (arith, e)
