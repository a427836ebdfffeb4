-- ===== src/Rmt/Monitor.antt =====
-- src/policies/DIF/RMT/Monitor/DLMonitor/DLMonitor.cc: the monitor that orders the queues of a port
-- by urgency. Queues and ports are known by their places in memory, numbers.
use Prim.Native.String.{String}
use rinasim.Base.{
  ℕ, ◌+◌, ◌-◌, Bool, Option, none, some, List, [], ◌∷◌, ◌++◌, if◌then◌else◌, string_key, number_key,
  Map, put, at_key, Result, ok, err, empty_queue, ◌>>=◌, u32, u32_mod,
}

pub record CuInfo : Type 0 where
  pub queue : String
  pub urgency : ℕ
  pub threshold : ℕ

-- `dlCUInfo()`. The urgency is an int, taken to be natural as the configured ones are.
unfoldable pub no_cu : CuInfo
no_cu = record { queue = "outQ_"; urgency = 0; threshold = 0 }

pub record MonQueue : Type 0 where
  pub id : ℕ
  pub port : Option ℕ
  pub is_input : Bool
  pub name : String
  pub max_length : ℕ

pub record DlMonitor : Type 0 where
  pub cus : Map String CuInfo
  pub q2cu : Map ℕ String
  pub in_q : Map ℕ (List ℕ)
  pub out_qs : Map ℕ (Map ℕ (List ℕ))
  pub in_c : Map ℕ ℕ
  pub out_c : Map ℕ ℕ
  pub last_inserted_urgency : Map ℕ ℕ

-- `c++` and `c--` of an unsigned counter.
unfoldable pub count_up : ℕ → Map ℕ ℕ → Map ℕ ℕ
count_up p c = put p (u32 (at_key 0 p c + 1)) c

unfoldable pub count_down : ℕ → Map ℕ ℕ → Map ℕ ℕ
count_down p c = put p (u32 (at_key 0 p c + u32_mod - 1)) c

unfoldable pub urgency_of : ℕ → DlMonitor → ℕ
urgency_of q s = (at_key no_cu (at_key "" q s.q2cu) s.cus).urgency

-- `outQs[port][urgency].push_back(queue)`.
unfoldable pub push_out : ℕ → ℕ → ℕ → Map ℕ (Map ℕ (List ℕ)) → Map ℕ (Map ℕ (List ℕ))
push_out p urgency q out_qs =
    let qs = at_key [] p out_qs in put p (put urgency (at_key [] urgency qs ++ (q ∷ [])) qs) out_qs

unfoldable pub arrive_at : ℕ → MonQueue → DlMonitor → DlMonitor
arrive_at p q s =
    if q.is_input
    then record s {
      in_c = count_up p s.in_c;
      in_q = put p (at_key [] p s.in_q ++ (q.id ∷ [])) s.in_q;
    }
    else record s {
      out_c = count_up p s.out_c;
      out_qs = push_out p (urgency_of q.id s) q.id s.out_qs;
      last_inserted_urgency = put p (urgency_of q.id s) s.last_inserted_urgency;
    }

unfoldable pub on_message_arrival : MonQueue → DlMonitor → DlMonitor
on_message_arrival q s = elim q.port [ none ↦ s | some p ↦ arrive_at p q s ]

-- `pop_back()`, which an empty list does not allow.
unfoldable pub pop_back : List ℕ → Result (List ℕ)
pop_back [] = err empty_queue
pop_back (x ∷ []) = ok []
pop_back (x ∷ y ∷ xs) = pop_back (y ∷ xs) >>= λ rest. ok (x ∷ rest)

unfoldable pub drop_at : ℕ → MonQueue → DlMonitor → Result DlMonitor
drop_at p q s =
    let urgency = at_key 0 p s.last_inserted_urgency in
    let qs = at_key [] p s.out_qs in
    let in_popped = pop_back (at_key [] p s.in_q) in
    let out_popped = pop_back (at_key [] urgency qs) in
    if q.is_input
    then in_popped >>= (λ l. ok (record s { in_c = count_down p s.in_c; in_q = put p l s.in_q }))
    else out_popped >>= (λ l.
      ok (record s { out_c = count_down p s.out_c; out_qs = put p (put urgency l qs) s.out_qs }))

unfoldable pub on_message_drop : MonQueue → DlMonitor → Result DlMonitor
on_message_drop q s = elim q.port [ none ↦ ok s | some p ↦ drop_at p q s ]

-- The front of a list, and the rest.
unfoldable pub pop_front : List ℕ → Option ℕ × List ℕ
pop_front [] = (none, [])
pop_front (x ∷ xs) = (some x, xs)

unfoldable pub counted_down : Option ℕ → ℕ → Map ℕ ℕ → Map ℕ ℕ
counted_down none p c = c
counted_down (some q) p c = count_down p c

unfoldable pub get_next_input : ℕ → DlMonitor → Option ℕ × DlMonitor
get_next_input p s =
    let r = pop_front (at_key [] p s.in_q) in
    (r.0, record s { in_q = put p r.1 s.in_q; in_c = counted_down r.0 p s.in_c })

-- The loop of `getNextOutput`, from the greatest urgency down.
unfoldable pub next_of : Map ℕ (List ℕ) → Option ℕ × Map ℕ (List ℕ)
next_of [] = (none, [])
next_of ((urgency, l) ∷ qs) =
    let above = next_of qs in
    let here = pop_front l in
    elim above.0 [
      | none ↦ (here.0, (urgency, here.1) ∷ above.1)
      | some q ↦ (some q, (urgency, l) ∷ above.1)
    ]

unfoldable pub get_next_output : ℕ → DlMonitor → Option ℕ × DlMonitor
get_next_output p s =
    let r = next_of (at_key [] p s.out_qs) in
    (r.0, record s { out_qs = put p r.1 s.out_qs; out_c = counted_down r.0 p s.out_c })

unfoldable pub get_in_count : ℕ → DlMonitor → ℕ
get_in_count p s = at_key 0 p s.in_c

unfoldable pub get_out_count : ℕ → DlMonitor → ℕ
get_out_count p s = at_key 0 p s.out_c

unfoldable pub get_out_threshold : MonQueue → DlMonitor → ℕ
get_out_threshold q s = (at_key no_cu (at_key "" q.id s.q2cu) s.cus).threshold

-- The last unit of the repository whose queue has the name; "BE" where there is none.
unfoldable pub unit_of : String → String → Map String CuInfo → String
unit_of name cu [] = cu
unit_of name cu ((k, info) ∷ cus) =
    unit_of name (if string_key.same info.queue name then k else cu) cus

unfoldable pub post_queue_creation : MonQueue → DlMonitor → DlMonitor
post_queue_creation q s = record s { q2cu = put q.id (unit_of q.name "BE" s.cus) s.q2cu }
