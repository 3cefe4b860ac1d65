-- ===== src/Race/System.antt =====
-- include/ResourceNode.hpp: the adding thread and the removing threads, in any order of their steps.
use rg.Prelude.{ℕ, false}
use rg.Access.{read}
use rg.Race.{Mem, Adder, resting, AddMove, Remover, outside, RemoveMove, set_at}

pub record System : Type 0 where
  pub mem : Mem
  pub adder : Adder
  pub removers : ℕ → Remover

pub data Step (s : System) : System → Type 0 where
  adds :
      {m : Mem} {a : Adder} → AddMove s.mem s.adder m a → Step s (record s { mem = m; adder = a })
  removes :
      (k : ℕ) {m : Mem} {r : Remover}
      → RemoveMove s.mem (s.removers k) m r
      → Step s (record s { mem = m; removers = set_at s.removers k r })

-- A new node, whose entries are default constructed.
abbrev pub new_mem : Mem
new_mem = record {
  first = 0;
  first_not_ready = 0;
  last = 0;
  handles = λ _. 0;
  modes = λ _. read;
  removed = λ _. false;
  lowered = λ _. 0;
  taken = λ _. false;
}

abbrev pub new_system : System
new_system = record { mem = new_mem; adder = resting; removers = λ _. outside }

pub data Reach : System → Type 0 where
  start : Reach new_system
  later : {s t : System} → Reach s → Step s t → Reach t
