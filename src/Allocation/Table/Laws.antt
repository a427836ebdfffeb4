-- ===== src/Allocation/Table/Laws.antt =====
-- What a write through a pointer into the table of src/DIF/FA/FAITable.cc changes.
use rinasim.Base.{
  ℕ, ◌≡◌, ◌≢◌, ap, refl, Bool, true, List, [], ◌∷◌, ◌++◌, ◌⊎◌, All, arith, Bool-cases, inl, inr,
  same_refl, same→eq,
}
use rinasim.Efcp.Pdu.{Address}
use rinasim.Routing.{address_key}
use rinasim.Allocation.{FlowObject, same_flow, same_bool}
use rinasim.Allocation.Mirror.{Ends, ends, ends-compare, compare-ends}
use rinasim.Allocation.Table.{
  AllocateStatus, FaiTableEntry, Fa, write_entry, has_flow, set_status, change_alloc_status,
}

-- The fields that tell two flows apart.
pub record FlowKey : Type 0 where
  pub its_ends : Ends
  pub create_flow_retries : ℕ
  pub max_create_flow_retries : ℕ
  pub hop_count : ℕ
  pub src_neighbor : Address
  pub dst_neighbor : Address
  pub ddt_flag : Bool

abbrev pub flow_key : FlowObject → FlowKey
flow_key f = record {
  its_ends = ends f;
  create_flow_retries = f.create_flow_retries;
  max_create_flow_retries = f.max_create_flow_retries;
  hop_count = f.hop_count;
  src_neighbor = f.src_neighbor;
  dst_neighbor = f.dst_neighbor;
  ddt_flag = f.ddt_flag;
}

flow_key-same_flow : (f g : FlowObject) → flow_key f ≡ flow_key g → same_flow f g ≡ true
unfolding same_flow same_bool
flow_key-same_flow f g h = ground (
  arith,
  ends-compare f g (ap FlowKey.its_ends h),
  ap FlowKey.create_flow_retries h,
  ap FlowKey.max_create_flow_retries h,
  ap FlowKey.hop_count h,
  ap FlowKey.src_neighbor h,
  ap FlowKey.dst_neighbor h,
  ap FlowKey.ddt_flag h,
  same_refl f.src_neighbor,
  same_refl f.dst_neighbor,
)

same_flow-flow_key : (f g : FlowObject) → same_flow f g ≡ true → flow_key f ≡ flow_key g
unfolding same_flow same_bool
same_flow-flow_key f g h = ground (
  arith,
  h,
  compare-ends f g,
  same→eq f.src_neighbor g.src_neighbor,
  same→eq f.dst_neighbor g.dst_neighbor,
)

-- An entry of another flow than the given one.
abbrev pub IsOther : FlowObject → (ℕ → FlowObject) → FaiTableEntry → Type 0
IsOther f flows e = flow_key (flows e.flow) ≢ flow_key f

-- The first entry of the given flow has the new status, and nothing else has changed.
pub record IsFirst (f : FlowObject) (flows : ℕ → FlowObject) (st : AllocateStatus)
    (es new : List FaiTableEntry) : Type 0 where
  pub before : List FaiTableEntry
  pub entry : FaiTableEntry
  pub after : List FaiTableEntry
  pub stood : es ≡ before ++ (entry ∷ after)
  pub passed : All (IsOther f flows) before
  pub fits : flow_key (flows entry.flow) ≡ flow_key f
  pub written : new ≡ before ++ (record entry { alloc_status = st } ∷ after)

written-IsFirst :
    (f : FlowObject) (flows : ℕ → FlowObject) (st : AllocateStatus) (es : List FaiTableEntry)
    → (All (IsOther f flows) es × (write_entry (has_flow f flows) (set_status st) es ≡ es))
      ⊎ IsFirst f flows st es (write_entry (has_flow f flows) (set_status st) es)
unfolding write_entry has_flow set_status
written-IsFirst f flows st [] = inl (tt, refl)
written-IsFirst f flows st (x ∷ es) = elim (Bool-cases (same_flow (flows x.flow) f)) [
  | inl t ↦ inr (record {
    before = [];
    entry = x;
    after = es;
    stood = refl;
    passed = tt;
    fits = same_flow-flow_key (flows x.flow) f t;
    written = ground (arith, t);
  })
  | inr n ↦
      let other : IsOther f flows x =
        λ h. ground (arith, flow_key-same_flow (flows x.flow) f h, n) in
      elim (written-IsFirst f flows st es) [
        | inl (all, same) ↦ inl ((other, all), ground (arith, n, same))
        | inr h ↦ inr (record {
          before = x ∷ h.before;
          entry = h.entry;
          after = h.after;
          stood = ap (λ (l : List FaiTableEntry). x ∷ l) h.stood;
          passed = (other, h.passed);
          fits = h.fits;
          written = ground (arith, n, h.written);
        })
      ]
]

-- Either no entry of the table has a flow that agrees with the given one in the fields that tell flows
-- apart, and the table stays as it is; or the first such entry gets the status and keeps its other
-- fields, and every other entry stays as it is.
pub change_alloc_status-IsFirst :
    (p : ℕ) (st : AllocateStatus) (s : Fa)
    → (All (IsOther (s.flows p) s.flows) s.fai_table
        × ((change_alloc_status p st s).fai_table ≡ s.fai_table))
      ⊎ IsFirst (s.flows p) s.flows st s.fai_table (change_alloc_status p st s).fai_table
unfolding change_alloc_status
change_alloc_status-IsFirst p st s = written-IsFirst (s.flows p) s.flows st s.fai_table
