-- ===== src/Allocation/Ribd/Hears.antt =====
-- How the instances of a process hear an answer: src/DIF/FA/FAIListeners.cc.
use rinasim.Base.{
  ℕ, zero, suc, ◌<◌, ◌≤◌, Bool, true, false, not, subst, ◌&&◌, ◌≡◌, ◌≢◌, refl, ap, sym, ◌∙◌, [],
  arith, Result, ok, string_key, Bool-cases, inl, inr, ltb, ltb→lt, ltb→ge, ne→==,
}
use rinasim.Allocation.{FlowObject, dup, swap_flow, get_apname, is_management_flow_local_to_ipcp}
use rinasim.Allocation.Table.{
  AllocateStatus, transfer, Fa, set_at, set_flow, emit, change_alloc_status,
}
use rinasim.Allocation.Instance.{Peers, take_remote, receive_create_response_positive}
use rinasim.Allocation.Own.{
  IsOwn, port_id, changed-IsOwn, same-IsOwn, set_at-src_port_id, set_at-flow_object,
}
use rinasim.Allocation.Ribd.{
  m_create_r, RibMessage, Process, on_event, on_events, flush, each_fai, has_ids, lis_cre_res_posi,
  lis_cre_res_posi_nminus_one, hear_posi, process_m_create_r, receive_object, receive_data,
}

-- A signal that the other instances pass over, before and after the one that it is for.
each_fai-before :
    (n i : ℕ) (g : ℕ → Fa → Result Fa) (s : Fa)
    → n ≤ i
    → ((j : ℕ) → j < i → g j s ≡ ok s)
    → each_fai n g s ≡ ok s
unfolding each_fai
each_fai-before zero i g s l h = refl
each_fai-before (suc n) i g s l h =
    rw (each_fai-before n i g s (omega (arith, l)) h) (h n (omega (arith, l)))

pub each_fai-own :
    (n i : ℕ) (g : ℕ → Fa → Result Fa) (s t : Fa)
    → i < n
    → ((j : ℕ) → j < i → g j s ≡ ok s)
    → g i s ≡ ok t
    → ((j : ℕ) → j < n → i < j → g j t ≡ ok t)
    → each_fai n g s ≡ ok t
unfolding each_fai
each_fai-own zero i g s t l a b c = absurd (omega (arith, l))
each_fai-own (suc n) i g s t l a b c = elim (Bool-cases (ltb i n)) [
  | inl y ↦
      let k = ltb→lt i n y in
      rw (each_fai-own n i g s t k a b (λ j m. c j (omega (arith, m)))) (c n (omega arith) k)
  | inr y ↦
      let e : i ≡ n = omega (arith, l, ltb→ge i n y) in
      rw (each_fai-before n i g s (omega (arith, e)) a) (subst (λ m. g m s ≡ ok t) e b)
]

-- Neither the application nor the instances of this process wait for the flow below.
abbrev pub is_from_above : Peers → FlowObject → Bool
is_from_above peers g =
    string_key.same (get_apname peers.my_address) g.src_apni.ap_name
    && not (is_management_flow_local_to_ipcp g)

heard_lem :
    (peers : Peers) (g : FlowObject) (i : ℕ) (s : Fa)
    → has_ids g i s ≡ true
    → is_from_above peers g ≡ false
    → hear_posi peers g i s ≡ ok ((receive_create_response_positive i g s).0)
unfolding hear_posi lis_cre_res_posi lis_cre_res_posi_nminus_one
heard_lem peers g i s h n = ground (arith, h, n)

passed_over :
    (peers : Peers) (g : FlowObject) (j : ℕ) (s : Fa)
    → port_id j s ≢ g.src_port_id
    → is_from_above peers g ≡ false
    → hear_posi peers g j s ≡ ok s
unfolding hear_posi lis_cre_res_posi lis_cre_res_posi_nminus_one has_ids
passed_over peers g j s h n = ground (arith, h, n, ne→== (port_id j s) g.src_port_id h)

has_ids-port_id :
    (g : FlowObject) (i : ℕ) (s : Fa) → has_ids g i s ≡ true → port_id i s ≡ g.src_port_id
unfolding has_ids
has_ids-port_id g i s h = ground (arith, h)

unfoldable pub answered : ℕ → FlowObject → Fa → Fa
answered i g s =
    record (set_flow (s.fais i).flow_object (take_remote (s.flows (s.fais i).flow_object) g) s) {
      fais =
          set_at i
            (record (s.fais i) {
              remote_port_id = g.dst_port_id;
              remote_cep_id = g.con_id.dst_cep_id;
            })
            s.fais;
    }

module _ (i : ℕ) (g : FlowObject) where
  answered_fais : (s : Fa) (j : ℕ) → ((answered i g s).fais j).flow_object ≡ (s.fais j).flow_object
  unfolding answered set_flow
  answered_fais s j =
      set_at-flow_object i
        (record (s.fais i) { remote_port_id = g.dst_port_id; remote_cep_id = g.con_id.dst_cep_id })
        s.fais refl j

  answered_ports :
      (s : Fa) (p : ℕ) → ((answered i g s).flows p).src_port_id ≡ (s.flows p).src_port_id
  unfolding answered set_flow take_remote
  answered_ports s p =
      let q = (s.fais i).flow_object in
      set_at-src_port_id q (take_remote (s.flows q) g) s.flows refl p

  -- An answer brings the flow of the instance to the transfer state.
  pub heard-IsOwn :
      (st : AllocateStatus) (s : Fa)
      → IsOwn i st s
      → IsOwn i transfer (receive_create_response_positive i g s).0
  unfolding receive_create_response_positive emit change_alloc_status answered set_flow
  heard-IsOwn st s h =
      let t = answered i g s in
      let p = (s.fais i).flow_object in
      let u = same-IsOwn i st s t refl refl (answered_fais s) (answered_ports s) h in
      same-IsOwn i transfer (change_alloc_status p transfer t)
        (receive_create_response_positive i g s).0 refl refl (λ j. refl) (λ q. refl)
        (subst (λ q. IsOwn i transfer (change_alloc_status q transfer t)) (answered_fais s i)
          (changed-IsOwn i st transfer t u))

  pub heard-port_id : (s : Fa) → port_id i (receive_create_response_positive i g s).0 ≡ port_id i s
  unfolding receive_create_response_positive emit change_alloc_status answered set_flow
  heard-port_id s =
      answered_ports s ((answered i g s).fais i).flow_object
      ∙ ap (λ (p : ℕ). (s.flows p).src_port_id) (answered_fais s i)

  heard_count : (s : Fa) → (receive_create_response_positive i g s).0.next_fai ≡ s.next_fai
  unfolding receive_create_response_positive emit change_alloc_status set_flow
  heard_count s = refl

  -- Of all instances the one with the ids of the answer changes.
  all_hear :
      (peers : Peers) (st : AllocateStatus) (s : Fa)
      → IsOwn i st s
      → has_ids g i s ≡ true
      → is_from_above peers g ≡ false
      → each_fai s.next_fai (hear_posi peers g) s ≡ ok ((receive_create_response_positive i g s).0)
  all_hear peers st s h k n =
      let t = (receive_create_response_positive i g s).0 in
      let mine = has_ids-port_id g i s k in
      let u = heard-IsOwn st s h in
      each_fai-own s.next_fai i (hear_posi peers g) s t h.present
        (λ j l.
          passed_over peers g j s
            (λ e. h.alone j (omega (arith, l, h.present)) (omega (arith, l)) (e ∙ sym mine)) n)
        (heard_lem peers g i s k n)
        (λ j l m.
          passed_over peers g j t
            (λ e.
              u.alone j (omega (arith, l, heard_count s)) (omega (arith, m))
                (e ∙ sym mine ∙ sym (heard-port_id s)))
            n)

unfoldable pub settled : ℕ → FlowObject → Process → Process
settled i g s = record s {
  fa = record (receive_create_response_positive i g s.fa).0 { events = [] };
}

flushed_answer :
    (i : ℕ) (g : FlowObject) (s : Process)
    → s.fa.events ≡ []
    → flush (record s { fa = (receive_create_response_positive i g s.fa).0 }) ≡ settled i g s
unfolding flush on_events on_event settled receive_create_response_positive emit change_alloc_status
    set_flow
flushed_answer i g s e =
    let own = take_remote (s.fa.flows (s.fa.fais i).flow_object) g in
    elim (Bool-cases (is_management_flow_local_to_ipcp own)) [
      | inl m ↦ ground (arith, e, m)
      | inr m ↦ ground (arith, e, m)
    ]

pub settles_lem :
    (peers : Peers) (i : ℕ) (m : RibMessage) (f : FlowObject) (st : AllocateStatus) (s : Process)
    → m.object ≡ m_create_r true f
    → IsOwn i st s.fa
    → s.fa.events ≡ []
    → has_ids (swap_flow (dup f)) i s.fa ≡ true
    → is_from_above peers (swap_flow (dup f)) ≡ false
    → receive_data peers m s ≡ ok (settled i (swap_flow (dup f)) s)
unfolding receive_data receive_object process_m_create_r settled
settles_lem peers i m f st s o own e h n = rw o (
    rw (all_hear i (swap_flow (dup f)) peers st s.fa own h n)
      (ap ok (flushed_answer i (swap_flow (dup f)) s e)))

pub settled-IsOwn :
    (i : ℕ) (g : FlowObject) (st : AllocateStatus) (s : Process)
    → IsOwn i st s.fa
    → IsOwn i transfer (settled i g s).fa
unfolding settled
settled-IsOwn i g st s h =
    same-IsOwn i transfer (receive_create_response_positive i g s.fa).0 (settled i g s).fa refl refl
      (λ j. refl) (λ p. refl) (heard-IsOwn i g st s.fa h)
