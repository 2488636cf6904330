-- ===== src/Role/Match.antt =====
-- What Match of role.cc compares.
use hongwei_notebook.Common.{
  ℕ, Bool, true, false, Option, none, some, ◌≡◌, refl, ap, ◌↔◌, arith, ==_iff, [],
}
use hongwei_notebook.Common.Int.{pos, ==ℤ_iff}
use hongwei_notebook.Common.Map.{bytes_beq, bytes_beq_iff}
use hongwei_notebook.Role.{
  RoleAttributes, Kind, node, writer, server, Role, get, differs, same, same_int, match_base,
  match_writer, match_server, matches,
}

-- A field that the target sets is the role's own, or the default of a field that the role does not
-- set.
pub Agrees : {A : Type 0} → A → Option A → Option A → Type 0
Agrees {A} default target own = (t : A) → target ≡ some t → get default own ≡ t

-- The fields that a kind of role adds to those of every role.
pub OwnFields : Kind → RoleAttributes → RoleAttributes → Type 0
OwnFields node target own = Unit {0}
OwnFields writer target own = Agrees 0 target.channel_id own.channel_id × Agrees 0 target.id own.id
OwnFields server target own = Agrees 0 target.service_id own.service_id

pub record Fits (target : RoleAttributes) (r : Role) : Type 0 where
  pub node_id : Agrees 0 target.node_id r.attributes.node_id
  pub process_id : Agrees (pos 0) target.process_id r.attributes.process_id
  pub host_name : Agrees [] target.host_name r.attributes.host_name
  pub own : OwnFields r.kind target r.attributes

differs_iff :
    {A : Type 0} (beq : A → A → Bool) (iff : (a b : A) → (beq a b ≡ true) ↔ (a ≡ b)) (default : A)
    (target own : Option A)
    → (differs beq default target own ≡ false) ↔ Agrees default target own
unfolding differs Agrees
differs_iff beq iff default none own = (λ e t p. cc, λ a. refl)
differs_iff beq iff default (some t) own = (
  λ e u p. ground (arith, iff t (get default own)),
  λ a. ground (arith, iff t (get default own), a t refl),
)

number_iff : (target own : Option ℕ) → (differs same 0 target own ≡ false) ↔ Agrees 0 target own
number_iff = differs_iff same ==_iff 0

base_iff :
    (r : Role) (t : RoleAttributes)
    → (match_base r t ≡ true) ↔ (
        Agrees 0 t.node_id r.attributes.node_id
        × Agrees (pos 0) t.process_id r.attributes.process_id
        × Agrees [] t.host_name r.attributes.host_name)
unfolding match_base
base_iff r t = ground (
  arith,
  number_iff t.node_id r.attributes.node_id,
  differs_iff same_int ==ℤ_iff (pos 0) t.process_id r.attributes.process_id,
  differs_iff bytes_beq bytes_beq_iff [] t.host_name r.attributes.host_name,
)

own_iff :
    (k : Kind) (r : Role) (t : RoleAttributes)
    → r.kind ≡ k
    → (matches r t ≡ true) ↔ ((match_base r t ≡ true) × OwnFields k t r.attributes)
unfolding matches match_writer match_server OwnFields
own_iff node r t e = (λ h. (ground (arith, h), tt), λ q. ground (arith, q.0))
own_iff writer r t e =
    ground (arith, number_iff t.channel_id r.attributes.channel_id, number_iff t.id r.attributes.id)
own_iff server r t e = ground (arith, number_iff t.service_id r.attributes.service_id)

-- Match holds exactly for the roles that fit the target: by the node, process and host that it
-- names, a writer or reader by its channel and identifier too, a server or client by its service.
pub matches_iff : (r : Role) (target : RoleAttributes) → (matches r target ≡ true) ↔ Fits target r
matches_iff r target =
    let o = own_iff r.kind r target refl in
    let b = base_iff r target in
    (
      λ e.
          let a = b.0 (o.0 e).0 in
          record { node_id = a.0; process_id = a.1; host_name = a.2; own = (o.0 e).1 },
      λ f. o.1 (b.1 (f.node_id, f.process_id, f.host_name), f.own),
    )

Agrees-self : {A : Type 0} (default : A) (own : Option A) → Agrees default own own
unfolding Agrees
Agrees-self default own t p = ap (get default) p

own_self : (k : Kind) (a : RoleAttributes) → OwnFields k a a
unfolding OwnFields
own_self node a = tt
own_self writer a = (Agrees-self 0 a.channel_id, Agrees-self 0 a.id)
own_self server a = Agrees-self 0 a.service_id

-- Every role matches its own attributes.
pub matches_self : (r : Role) → matches r r.attributes ≡ true
matches_self r = (matches_iff r r.attributes).1 (record {
  node_id = Agrees-self 0 r.attributes.node_id;
  process_id = Agrees-self (pos 0) r.attributes.process_id;
  host_name = Agrees-self [] r.attributes.host_name;
  own = own_self r.kind r.attributes;
})
