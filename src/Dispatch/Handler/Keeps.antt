-- ===== src/Dispatch/Handler/Keeps.antt =====
-- A list of listeners by key against a signal and its connections.
use hongwei_notebook.Common.{
  ℕ, ◌≡◌, refl, true, List, [], ◌∷◌, ◌++◌, none, some, arith, sym, ◌∙◌, ap,
}
use hongwei_notebook.Common.Map.{nat_eq, lookup, insert, erase}
use hongwei_notebook.Base.Signal
use hongwei_notebook.Base.Signal.{Signal}
use hongwei_notebook.Dispatch.Handler.{ConnectionMap}
use hongwei_notebook.Dispatch.Handler.Ports.{
  Port, Serves, keys_of, listed, values, without, listed-append, erase-listed, without_absent,
}
use hongwei_notebook.Dispatch.Handler.Serves.{
  port, connect-Serves, connect-is_connected, disconnect-Serves, emit-Serves, make-Serves,
}

module _ {L : Type 0} where
  keys-listed :
      (k : ℕ) (ps : List (Port L)) → lookup k (listed ps) ≡ none → lookup k (keys_of ps) ≡ none
  unfolding lookup
  keys-listed k [] e = refl
  keys-listed k (p ∷ ps) e = ground (arith, keys-listed k ps)

  -- The listeners `ls` are served by a signal and its connections.
  pub record Keeps (ls : List (ℕ × L)) (s : Signal L) (c : ConnectionMap) : Type 0 where
    pub ports : List (Port L)
    pub serves : Serves ports s c
    pub names : ls ≡ listed ports

  pub Keeps-connect :
      (ls : List (ℕ × L)) (s : Signal L) (c : ConnectionMap) (k : ℕ) (l : L)
      → Keeps ls s c
      → lookup k ls ≡ none
      → (Keeps (ls ++ ((k, l) ∷ [])) (Signal.connect s l).0 (insert k (Signal.connect s l).1 c))
        × (Signal.is_connected (Signal.connect s l).0 (Signal.connect s l).1 ≡ true)
  Keeps-connect ls s c k l v new = (
    record {
      ports = v.ports ++ (port s k l ∷ []);
      serves = connect-Serves v.ports s c k l v.serves (keys-listed k v.ports (rw v.names at new));
      names = rw v.names (sym (listed-append v.ports (port s k l ∷ [])));
    },
    connect-is_connected v.ports s c l v.serves,
  )

  pub Keeps-disconnect :
      (ls : List (ℕ × L)) (s : Signal L) (c : ConnectionMap) (k conn : ℕ)
      → Keeps ls s c
      → lookup k c ≡ some conn
      → Keeps (erase k ls) (Signal.disconnect s conn).0 (erase k c)
  Keeps-disconnect ls s c k conn v e = record {
    ports = without k v.ports;
    serves = disconnect-Serves v.ports s c k conn v.serves (ap (lookup k) (sym v.serves.conns) ∙ e);
    names = rw v.names (erase-listed k v.ports);
  }

  pub Keeps-absent :
      (ls : List (ℕ × L)) (s : Signal L) (c : ConnectionMap) (k : ℕ)
      → Keeps ls s c
      → lookup k c ≡ none
      → erase k ls ≡ ls
  Keeps-absent ls s c k v e = rw v.names (
      erase-listed k v.ports
      ∙ ap listed (without_absent k v.ports (ap (lookup k) (sym v.serves.conns) ∙ e)))

  pub Keeps-make : Keeps [] Signal.make []
  Keeps-make = record { ports = []; serves = make-Serves; names = refl }

  pub Keeps-emit :
      (ls : List (ℕ × L)) (s : Signal L) (c : ConnectionMap)
      → Keeps ls s c
      → (Keeps ls (Signal.emit s).0 c) × ((Signal.emit s).1 ≡ values ls)
  Keeps-emit ls s c v =
      let e = emit-Serves v.ports s c v.serves in
      (record { ports = v.ports; serves = e.0; names = v.names }, e.1 ∙ ap values (sym v.names))
