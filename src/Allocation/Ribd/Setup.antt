-- ===== src/Allocation/Ribd/Setup.antt =====
-- A flow is set up between two processes: src/DIF/RIB/RIBd.cc and src/DIF/FA/FAI.cc.
use rinasim.Base.{ℕ, ◌≡◌, [], string_key}
use rinasim.Allocation.{FlowObject, dup, swap_flow}
use rinasim.Allocation.Mirror.{ends}
use rinasim.Allocation.Table.{AllocateStatus, transfer}
use rinasim.Allocation.Instance.{Peers}
use rinasim.Allocation.Own.{IsOwn}
use rinasim.Allocation.Ribd.{Process}
use rinasim.Allocation.Ribd.Hears.{settled}
use rinasim.Allocation.Ribd.Steps.{own_flow, named, asked, received}

-- Both ends transfer, and each flow is the other one seen from its side.
pub record IsSetUp (i j : ℕ) (r : Process × Process) : Type 0 where
  pub first : IsOwn i transfer r.0.fa
  pub second : IsOwn j transfer r.1.fa
  pub mirror : ends (own_flow i r.0) ≡ ends (swap_flow (own_flow j r.1))

-- A process that has no flow yet.
pub record IsFresh (s : Process) : Type 0 where
  pub no_entry : s.fa.fai_table ≡ []
  pub no_fai : s.fa.next_fai ≡ 0
  pub no_event : s.fa.events ≡ []
  pub none_sent : s.sent ≡ []

-- A process with an instance in the given state, and nothing left to send.
pub record IsIdle (i : ℕ) (st : AllocateStatus) (s : Process) : Type 0 where
  pub only : IsOwn i st s.fa
  pub no_event : s.fa.events ≡ []
  pub none_sent : s.sent ≡ []

module _ (pa pb : Peers) (i : ℕ) (a b : Process) where
  -- The sides after each step.
  second_received : Process
  second_received = received pb (named i a) b

  answer : FlowObject
  unfolding second_received
  answer = swap_flow (dup (own_flow 0 second_received))

  first_settled : Process
  first_settled = settled i answer (asked i a)
