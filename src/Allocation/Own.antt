-- ===== src/Allocation/Own.antt =====
-- An instance and its entry among the others in the table of src/DIF/FA/FAITable.cc.
use rinasim.Base.{
  ℕ, ◌<◌, Bool, true, false, ◌≡◌, ◌≢◌, refl, sym, ◌∙◌, ap, some, List, [], ◌∷◌, ◌++◌, All, arith,
  subst, ok, eq→==, ne→==,
}
use rinasim.Allocation.{FlowObject, compare, same_flow}
use rinasim.Allocation.Mirror.{same_flow_refl}
use rinasim.Allocation.Table.{
  AllocateStatus, status_number, same_status, FaiTableEntry, Fai, Fa, set_at, find_entry,
  write_entry, has_flow, find_entry_by_flow, has_fai, set_status, change_alloc_status,
  change_alloc_status_of_fai, set_time_deleted,
}
use rinasim.Allocation.Instance.{guarded}

-- The local port of an instance's flow.
abbrev pub port_id : ℕ → Fa → ℕ
port_id i s = (s.flows (s.fais i).flow_object).src_port_id

-- An entry that is not the instance's, and whose flow has another local port.
abbrev pub IsApart : ℕ → ℕ → (ℕ → FlowObject) → FaiTableEntry → Type 0
IsApart i n flows e = (has_fai i e ≡ false) × ((flows e.flow).src_port_id ≢ n)

-- The table has an entry in the given state for the instance, its local port is that of no other
-- instance and of no entry before that one.
pub record IsOwn (i : ℕ) (st : AllocateStatus) (s : Fa) : Type 0 where
  pub before : List FaiTableEntry
  pub entry : FaiTableEntry
  pub after : List FaiTableEntry
  pub table : s.fai_table ≡ before ++ (entry ∷ after)
  pub its_flow : entry.flow ≡ (s.fais i).flow_object
  pub its_status : entry.alloc_status ≡ st
  pub its_fai : entry.fai ≡ some i
  pub apart : All (IsApart i (port_id i s) s.flows) before
  pub present : i < s.next_fai
  pub alone : (j : ℕ) → j < s.next_fai → j ≢ i → port_id j s ≢ port_id i s

other_port : (f g : FlowObject) → f.src_port_id ≢ g.src_port_id → same_flow f g ≡ false
unfolding same_flow compare
other_port f g h = ground (arith, ne→== f.src_port_id g.src_port_id h)

pub compare_port : (f g : FlowObject) → f.src_port_id ≢ g.src_port_id → compare f g ≡ false
unfolding compare
compare_port f g h = ground (arith, ne→== f.src_port_id g.src_port_id h)

-- Searches and writes pass over the entries that do not fit.
found_past :
    (p : FaiTableEntry → Bool) (before : List FaiTableEntry) (e : FaiTableEntry)
    (after : List FaiTableEntry)
    → All (λ (x : FaiTableEntry). p x ≡ false) before
    → p e ≡ true
    → find_entry p (before ++ (e ∷ after)) ≡ some e
unfolding find_entry
found_past p [] e after h t = ground (arith, t)
found_past p (b ∷ before) e after h t = ground (arith, h.0, found_past p before e after h.1 t)

written_past :
    (p : FaiTableEntry → Bool) (g : FaiTableEntry → FaiTableEntry) (before : List FaiTableEntry)
    (e : FaiTableEntry) (after : List FaiTableEntry)
    → All (λ (x : FaiTableEntry). p x ≡ false) before
    → p e ≡ true
    → write_entry p g (before ++ (e ∷ after)) ≡ before ++ (g e ∷ after)
unfolding write_entry
written_past p g [] e after h t = ground (arith, t)
written_past p g (b ∷ before) e after h t =
    ground (arith, h.0, written_past p g before e after h.1 t)

apart_flows :
    (i : ℕ) (f : FlowObject) (flows : ℕ → FlowObject) (es : List FaiTableEntry)
    → All (IsApart i f.src_port_id flows) es
    → All (λ (x : FaiTableEntry). has_flow f flows x ≡ false) es
unfolding has_flow
apart_flows i f flows [] h = tt
apart_flows i f flows (e ∷ es) h = (other_port (flows e.flow) f h.0.1, apart_flows i f flows es h.1)

apart_fais :
    (i n : ℕ) (flows : ℕ → FlowObject) (es : List FaiTableEntry)
    → All (IsApart i n flows) es
    → All (λ (x : FaiTableEntry). has_fai i x ≡ false) es
apart_fais i n flows [] h = tt
apart_fais i n flows (e ∷ es) h = (h.0.0, apart_fais i n flows es h.1)

IsApart-same :
    (i n m : ℕ) (flows new : ℕ → FlowObject) (es : List FaiTableEntry)
    → m ≡ n
    → ((p : ℕ) → (new p).src_port_id ≡ (flows p).src_port_id)
    → All (IsApart i n flows) es
    → All (IsApart i m new) es
IsApart-same i n m flows new [] e q h = tt
IsApart-same i n m flows new (x ∷ es) e q h =
    ((h.0.0, λ c. h.0.1 (sym (q x.flow) ∙ c ∙ e)), IsApart-same i n m flows new es e q h.1)

own_fits : (p : ℕ) (e : FaiTableEntry) (s : Fa) → e.flow ≡ p → has_flow (s.flows p) s.flows e ≡ true
unfolding has_flow
own_fits p e s f = ground (arith, f, same_flow_refl (s.flows p))

own_has_fai : (i : ℕ) (e : FaiTableEntry) → e.fai ≡ some i → has_fai i e ≡ true
unfolding has_fai
own_has_fai i e f = ground (arith, f, eq→== i i refl)

pub same_status_refl : (st : AllocateStatus) → same_status st st ≡ true
unfolding same_status
same_status_refl st = eq→== (status_number st) (status_number st) refl

module _ (i : ℕ) where
  pub found_own :
      (st : AllocateStatus) (s : Fa) (h : IsOwn i st s)
      → find_entry_by_flow (s.fais i).flow_object s ≡ some h.entry
  unfolding find_entry_by_flow
  found_own st s h =
      let f = s.flows (s.fais i).flow_object in
      rw h.table (
        found_past (has_flow f s.flows) h.before h.entry h.after
          (apart_flows i f s.flows h.before h.apart)
          (own_fits (s.fais i).flow_object h.entry s h.its_flow))

  -- In the right state a guarded handler runs.
  pub guarded-IsOwn :
      (st : AllocateStatus) (body : Fa → Fa × Bool) (s : Fa)
      → IsOwn i st s
      → guarded st body (s.fais i).flow_object s ≡ ok (body s)
  unfolding guarded
  guarded-IsOwn st body s h = ground (arith, found_own st s h, h.its_status, same_status_refl st)

  -- The table, the number of instances, their flows and the ports of the flows are all that counts.
  pub same-IsOwn :
      (st : AllocateStatus) (s t : Fa)
      → t.fai_table ≡ s.fai_table
      → t.next_fai ≡ s.next_fai
      → ((j : ℕ) → (t.fais j).flow_object ≡ (s.fais j).flow_object)
      → ((p : ℕ) → (t.flows p).src_port_id ≡ (s.flows p).src_port_id)
      → IsOwn i st s
      → IsOwn i st t
  same-IsOwn st s t a b c d h =
      let ports =
        λ (j : ℕ). d (t.fais j).flow_object ∙ ap (λ (p : ℕ). (s.flows p).src_port_id) (c j) in
      record {
        before = h.before;
        entry = h.entry;
        after = h.after;
        table = a ∙ h.table;
        its_flow = h.its_flow ∙ sym (c i);
        its_status = h.its_status;
        its_fai = h.its_fai;
        apart =
            IsApart-same i (port_id i s) (port_id i t) s.flows t.flows h.before (ports i) d h.apart;
        present = subst (λ n. i < n) (sym b) h.present;
        alone = λ j l n e. h.alone j (subst (λ m. j < m) b l) n (sym (ports j) ∙ e ∙ ports i);
      }

  -- What a write to the entry leaves of the table.
  written-IsOwn :
      (st new : AllocateStatus) (g : FaiTableEntry → FaiTableEntry) (s : Fa) (h : IsOwn i st s)
      → (g h.entry).flow ≡ h.entry.flow
      → (g h.entry).fai ≡ h.entry.fai
      → (g h.entry).alloc_status ≡ new
      → IsOwn i new (record s { fai_table = h.before ++ (g h.entry ∷ h.after) })
  written-IsOwn st new g s h a b c = record {
    before = h.before;
    entry = g h.entry;
    after = h.after;
    table = refl;
    its_flow = a ∙ h.its_flow;
    its_status = c;
    its_fai = b ∙ h.its_fai;
    apart = h.apart;
    present = h.present;
    alone = h.alone;
  }

  write_by_flow :
      (st : AllocateStatus) (g : FaiTableEntry → FaiTableEntry) (s : Fa) (h : IsOwn i st s)
      → write_entry (has_flow (s.flows (s.fais i).flow_object) s.flows) g s.fai_table
        ≡ h.before ++ (g h.entry ∷ h.after)
  write_by_flow st g s h =
      let f = s.flows (s.fais i).flow_object in
      rw h.table (
        written_past (has_flow f s.flows) g h.before h.entry h.after
          (apart_flows i f s.flows h.before h.apart)
          (own_fits (s.fais i).flow_object h.entry s h.its_flow))

  pub changed-IsOwn :
      (st new : AllocateStatus) (s : Fa)
      → IsOwn i st s
      → IsOwn i new (change_alloc_status (s.fais i).flow_object new s)
  unfolding change_alloc_status set_status
  changed-IsOwn st new s h =
      simp (write_by_flow st (set_status new) s h)
        (written-IsOwn st new (set_status new) s h refl refl refl)

  pub deleted-IsOwn :
      (st : AllocateStatus) (s : Fa)
      → IsOwn i st s
      → IsOwn i st (set_time_deleted (s.fais i).flow_object s)
  unfolding set_time_deleted
  deleted-IsOwn st s h =
      let g : FaiTableEntry → FaiTableEntry = λ e. record e { time_deleted = s.sim_time } in
      simp (write_by_flow st g s h) (written-IsOwn st st g s h refl refl h.its_status)

  pub changed_fai-IsOwn :
      (st new : AllocateStatus) (s : Fa)
      → IsOwn i st s
      → IsOwn i new (change_alloc_status_of_fai i new s)
  unfolding change_alloc_status_of_fai set_status
  changed_fai-IsOwn st new s h = simp (h.table) (
      simp
        (written_past (has_fai i) (set_status new) h.before h.entry h.after
          (apart_fais i (port_id i s) s.flows h.before h.apart) (own_has_fai i h.entry h.its_fai))
        (written-IsOwn st new (set_status new) s h refl refl refl))

-- Writes that keep what counts.
pub set_at-src_port_id :
    (p : ℕ) (f : FlowObject) (flows : ℕ → FlowObject)
    → f.src_port_id ≡ (flows p).src_port_id
    → (q : ℕ) → (set_at p f flows q).src_port_id ≡ (flows q).src_port_id
unfolding set_at
set_at-src_port_id p f flows h q = ground (arith, h)

pub set_at-flow_object :
    (i : ℕ) (x : Fai) (fais : ℕ → Fai)
    → x.flow_object ≡ (fais i).flow_object
    → (j : ℕ) → (set_at i x fais j).flow_object ≡ (fais j).flow_object
unfolding set_at
set_at-flow_object i x fais h j = ground (arith, h)
