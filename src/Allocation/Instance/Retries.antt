-- ===== src/Allocation/Instance/Retries.antt =====
-- How often an instance of src/DIF/FA/FAI.cc asks again under the policy
-- src/policies/DIF/FA/AllocateRetry/LimitedRetries.
use rinasim.Base.{
  ℕ, zero, suc, ◌+◌, ◌<◌, ◌≡◌, refl, ap, ◌∙◌, List, [], ◌∷◌, ◌++◌, append_assoc, arith, u32,
  u32_small, u32_mod, eq→==, le→leb, gt→leb,
}
use rinasim.Allocation.{FlowObject}
use rinasim.Allocation.Table.{
  Event, create_flow_request, allocate_response_negative, Fa, set_at, set_flow, emit,
  change_alloc_status,
}
use rinasim.Allocation.Instance.{Peers, limited_retries, refuse, receive_create_response_negative}

-- Negative answers, one after the other.
unfoldable pub refused_times : ℕ → Peers → ℕ → Fa → Fa
refused_times zero peers i s = s
refused_times (suc n) peers i s =
    refused_times n peers i (receive_create_response_negative peers i s).0

unfoldable pub repeated : ℕ → Event → List Event
repeated zero e = []
repeated (suc n) e = e ∷ repeated n e

unfoldable pub flow_of : ℕ → Fa → FlowObject
flow_of i s = s.flows (s.fais i).flow_object

counted : FlowObject → FlowObject
counted f = record f { create_flow_retries = u32 (f.create_flow_retries + 1) }

retried : ℕ → Fa → Fa
unfolding counted
retried i s =
    let p = (s.fais i).flow_object in
    emit (create_flow_request p) (set_flow p (counted (flow_of i s)) s)

asks_again :
    (peers : Peers) (i k : ℕ) (s : Fa)
    → peers.alloc_retry (flow_of i s) ≡ limited_retries (flow_of i s)
    → (flow_of i s).max_create_flow_retries < u32_mod
    → (flow_of i s).create_flow_retries + suc k ≡ (flow_of i s).max_create_flow_retries
    → (receive_create_response_negative peers i s).0 ≡ retried i s
unfolding receive_create_response_negative limited_retries retried flow_of counted
asks_again peers i k s r b e =
    let f = flow_of i s in
    ground (
      arith,
      r,
      e,
      u32_small (f.create_flow_retries + 1) (omega (arith, b, e)),
      le→leb (f.create_flow_retries + 1) f.max_create_flow_retries (omega (arith, e)),
    )

gives_up :
    (peers : Peers) (i : ℕ) (s : Fa)
    → peers.alloc_retry (flow_of i s) ≡ limited_retries (flow_of i s)
    → (flow_of i s).max_create_flow_retries + 1 < u32_mod
    → (flow_of i s).create_flow_retries ≡ (flow_of i s).max_create_flow_retries
    → (receive_create_response_negative peers i s).0.events
      ≡ s.events ++ (allocate_response_negative (s.fais i).flow_object ∷ [])
unfolding receive_create_response_negative limited_retries flow_of refuse emit set_flow
    change_alloc_status
gives_up peers i s r b e =
    let f = flow_of i s in
    ground (
      arith,
      r,
      e,
      u32_small (f.create_flow_retries + 1) (omega (arith, b, e)),
      gt→leb (f.create_flow_retries + 1) f.max_create_flow_retries (omega (arith, e)),
    )

retried_flow : (i : ℕ) (s : Fa) → flow_of i (retried i s) ≡ counted (flow_of i s)
unfolding retried flow_of emit set_flow set_at
retried_flow i s = ground (arith, eq→== (s.fais i).flow_object (s.fais i).flow_object refl)

retried_events :
    (i : ℕ) (s : Fa)
    → (retried i s).events ≡ s.events ++ (create_flow_request (s.fais i).flow_object ∷ [])
unfolding retried emit set_flow
retried_events i s = refl

retried_owner : (i : ℕ) (s : Fa) → ((retried i s).fais i).flow_object ≡ (s.fais i).flow_object
unfolding retried emit set_flow
retried_owner i s = refl

rejoined :
    (i k : ℕ) (s : Fa)
    → (retried i s).events
        ++ (repeated k (create_flow_request ((retried i s).fais i).flow_object)
            ++ (allocate_response_negative ((retried i s).fais i).flow_object ∷ []))
      ≡ s.events
        ++ (create_flow_request (s.fais i).flow_object
            ∷ (repeated k (create_flow_request (s.fais i).flow_object)
                ++ (allocate_response_negative (s.fais i).flow_object ∷ [])))
unfolding retried emit set_flow
rejoined i k s = append_assoc s.events (create_flow_request (s.fais i).flow_object ∷ []) _

-- Under LimitedRetries an instance that has k tries left answers k refusals by asking again, and the
-- one after them by telling the application that the flow is refused; it does nothing else. The
-- limit is below the largest word.
pub refused_times-gives_up :
    (peers : Peers) (i k : ℕ) (s : Fa)
    → ((f : FlowObject) → peers.alloc_retry f ≡ limited_retries f)
    → (flow_of i s).max_create_flow_retries + 1 < u32_mod
    → (flow_of i s).create_flow_retries + k ≡ (flow_of i s).max_create_flow_retries
    → (refused_times (suc k) peers i s).events
      ≡ s.events
        ++ (repeated k (create_flow_request (s.fais i).flow_object)
            ++ (allocate_response_negative (s.fais i).flow_object ∷ []))
unfolding refused_times repeated
refused_times-gives_up peers i zero s r b e =
    gives_up peers i s (r (flow_of i s)) b (omega (arith, e))
refused_times-gives_up peers i (suc k) s r b e =
    let f = flow_of i s in
    let t = retried i s in
    let small = u32_small (f.create_flow_retries + 1) (omega (arith, b, e)) in
    let own = retried_flow i s in
    let max : (flow_of i t).max_create_flow_retries ≡ f.max_create_flow_retries =
      unfold counted in ap (λ (x : FlowObject). x.max_create_flow_retries) own in
    let now : (flow_of i t).create_flow_retries ≡ f.create_flow_retries + 1 =
      unfold counted in ap (λ (x : FlowObject). x.create_flow_retries) own ∙ small in
    let ih =
      refused_times-gives_up peers i k t r (omega (arith, max, b)) (omega (arith, max, now, e)) in
    ap (λ (u : Fa). (refused_times (suc k) peers i u).events)
      (asks_again peers i k s (r f) (omega (arith, b)) e)
    ∙ ih
    ∙ rejoined i k s
