-- ===== src/Allocation/Examples/Processes.antt =====
-- Two processes with a management flow between them, and with a data flow beside it, as src/DIF/FA
-- keeps them.
use Prim.Native.String.{String}
use rinasim.Base.{
  ℕ, zero, suc, ◌<◌, ◌==◌, if◌then◌else◌, ◌≢◌, Bool, true, false, refl, some, List, [], ◌∷◌,
  string_key, arith,
}
use rinasim.Efcp.Pdu.{Address}
use rinasim.Allocation.{FlowObject, undef_id, naming_of, swap_flow}
use rinasim.Enrollment.{apname}
use rinasim.Allocation.Table.{AllocateStatus, transfer, has_fai, FaiTableEntry, Fai, Fa}
use rinasim.Allocation.Instance.{Peers, connects, is_bound, limited_retries}
use rinasim.Allocation.Accept.{IsWilling}
use rinasim.Allocation.Own.{port_id}
use rinasim.Allocation.Ribd.{Process}
use rinasim.Allocation.Ribd.Setup.{IsFresh, IsIdle}

abbrev pub address_a : Address
address_a = record { ipc_address = "A"; dif_name = "D" }

abbrev pub address_b : Address
address_b = record { ipc_address = "B"; dif_name = "D" }

abbrev pub flow_ab : FlowObject
flow_ab = record {
  src_apni = naming_of "App1";
  dst_apni = naming_of "App2";
  src_port_id = 11;
  dst_port_id = undef_id;
  src_addr = address_a;
  dst_addr = address_b;
  src_neighbor = address_a;
  dst_neighbor = address_b;
  con_id = record { qos_id = "gold"; src_cep_id = 12; dst_cep_id = undef_id };
  create_flow_retries = 0;
  max_create_flow_retries = 3;
  hop_count = 16;
  alloc_invoke_id = 0;
  dealloc_invoke_id = 0;
  ddt_flag = false;
  is_management_flow = false;
}

abbrev pub flow_ba : FlowObject
flow_ba = record (swap_flow flow_ab) {
  src_port_id = 21;
  con_id = record { qos_id = "gold"; src_cep_id = 22; dst_cep_id = 12 };
}

-- What both processes find around them; the first argument tells whether the (N-1)-flow is ready.
abbrev pub around : Bool → Address → String → Peers
around ready own app = record {
  new_flow_request = λ f. (f, true);
  alloc_retry = limited_retries;
  create_efcpi = λ f i. true;
  create_bindings = λ f i. true;
  bind_n_flow_to_nm1_flow = λ f. ready;
  my_address = own;
  is_app_local = λ n. string_key.same n app;
  resolve_apn_to_best_address = λ n d. some own;
  find_apn_neighbors = λ n. [];
  read_address = λ n. own;
  draw = λ n. (21, 22);
}

abbrev pub around_a : Peers
around_a = around true address_a "App1"

abbrev pub around_b : Peers
around_b = around true address_b "App2"

abbrev pub instance_of : FlowObject → Fai
instance_of f = record {
  flow_object = 0;
  degenerate_data_transfer = false;
  local_port_id = f.src_port_id;
  local_cep_id = f.con_id.src_cep_id;
  remote_port_id = f.dst_port_id;
  remote_cep_id = f.con_id.dst_cep_id;
}

abbrev pub entry_in : AllocateStatus → FaiTableEntry
entry_in st = record {
  fai = some 0;
  flow = 0;
  alloc_status = st;
  time_created = 1;
  time_deleted = 0;
}

abbrev pub allocator : FlowObject → List FaiTableEntry → ℕ → Fa
allocator f table n = record {
  flows = λ p. f;
  next_flow = 1;
  fais = λ i. instance_of f;
  next_fai = n;
  fai_table = table;
  pending_flows = [];
  events = [];
  sim_time = 5;
}

abbrev pub process : FlowObject → List FaiTableEntry → ℕ → Process
process f table n = record { fa = allocator f table n; cur_invoke_id = 0; sent = [] }

abbrev pub with_flow : FlowObject → AllocateStatus → Process
with_flow f st = process f (entry_in st ∷ []) 1

pub around-IsWilling : (own : Address) (app : String) → IsWilling (around true own app)
unfolding connects is_bound
around-IsWilling own app = record {
  agrees = λ f. refl;
  joins = λ f i. refl;
  binds = λ f i. ground arith;
}

-- The flow between the processes themselves.
abbrev pub mgmt_ab : FlowObject
mgmt_ab = record flow_ab {
  src_apni = naming_of (apname address_a);
  dst_apni = naming_of (apname address_b);
  src_port_id = 1;
  is_management_flow = true;
}

-- The second object, instance and entry of a process are those of a data flow.
abbrev pub instance_beside : FlowObject → Fai
instance_beside f = record (instance_of f) { flow_object = 1 }

abbrev pub entry_beside : AllocateStatus → FaiTableEntry
entry_beside st = record (entry_in st) { fai = some 1; flow = 1 }

abbrev pub fais_beside : FlowObject → FlowObject → ℕ → Fai
fais_beside m f i = if i == 0 then instance_of m else instance_beside f

abbrev pub beside : FlowObject → FlowObject → AllocateStatus → Process
beside m f st = record {
  fa = record {
    flows = λ p. if p == 0 then m else f;
    next_flow = 2;
    fais = fais_beside m f;
    next_fai = 2;
    fai_table = entry_in transfer ∷ entry_beside st ∷ [];
    pending_flows = [];
    events = [];
    sim_time = 5;
  };
  cur_invoke_id = 0;
  sent = [];
}

beside_alone :
    (m f : FlowObject) (st : AllocateStatus)
    → m.src_port_id ≢ f.src_port_id
    → (j : ℕ) → j < 2
    → j ≢ 1
    → port_id j (beside m f st).fa ≢ port_id 1 (beside m f st).fa
beside_alone m f st d zero l n e = d e
beside_alone m f st d (suc zero) l n e = n refl
beside_alone m f st d (suc (suc j)) l n e = absurd (omega (arith, l))

pub beside-IsIdle :
    (m f : FlowObject) (st : AllocateStatus)
    → m.src_port_id ≢ f.src_port_id
    → IsIdle 1 st (beside m f st)
unfolding has_fai
beside-IsIdle m f st d = record {
  only = record {
    before = entry_in transfer ∷ [];
    entry = entry_beside st;
    after = [];
    table = refl;
    its_flow = refl;
    its_status = refl;
    its_fai = refl;
    apart = ((refl, d), tt);
    present = omega arith;
    alone = beside_alone m f st d;
  };
  no_event = refl;
  none_sent = refl;
}

pub with_flow-IsIdle : (f : FlowObject) (st : AllocateStatus) → IsIdle 0 st (with_flow f st)
with_flow-IsIdle f st = record {
  only = record {
    before = [];
    entry = entry_in st;
    after = [];
    table = refl;
    its_flow = refl;
    its_status = refl;
    its_fai = refl;
    apart = tt;
    present = omega arith;
    alone = λ j l n e. absurd (n (omega (arith, l)));
  };
  no_event = refl;
  none_sent = refl;
}

pub process-IsFresh : (f : FlowObject) → IsFresh (process f [] 0)
process-IsFresh f = record { no_entry = refl; no_fai = refl; no_event = refl; none_sent = refl }
