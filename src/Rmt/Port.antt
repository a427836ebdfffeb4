-- ===== src/Rmt/Port.antt =====
-- A port with its queues: src/DIF/RMT/RMTPort.cc, the queue and port handlers of src/DIF/RMT/RMT.cc,
-- and the scheduler policies/DIF/RMT/Scheduler/LongestQFirst. The queue monitor is the one that does
-- nothing.
pub mod Longest
pub mod Counts
pub mod Bounds
pub mod Drops
pub mod Blocking
use rinasim.Base.{
  ℕ, zero, suc, ◌+◌, ◌-◌, List, [], ◌∷◌, ◌++◌, Bool, true, false, ◌&&◌, ltb, if◌then◌else◌, u64,
  u64_mod, Option, none, some, Result, ok, err, null_queue, bad_index, ◌>>=◌, get_elem?, set,
  length,
}
use rinasim.Rmt.Queue.{RmtPdu, RmtQueue, MaxQPolicy, enqueue_pdu, drop_last, run_max_q}

pub data Direction : Type 0 where
  input output : Direction

pub record RmtPort : Type 0 where
  pub output_ready : Bool
  pub input_ready : Bool
  pub blocked_output : Bool
  pub blocked_input : Bool
  pub waiting_on_input : ℕ
  pub waiting_on_output : ℕ
  pub input_queues : List RmtQueue
  pub output_queues : List RmtQueue
  -- What left the queues, and the reads that are scheduled.
  pub released : List (Direction × RmtPdu)
  pub reads_scheduled : ℕ

abbrev pub queues_of : Direction → RmtPort → List RmtQueue
queues_of input p = p.input_queues
queues_of output p = p.output_queues

abbrev pub set_queues : Direction → RmtPort → List RmtQueue → RmtPort
set_queues input p qs = record p { input_queues = qs }
set_queues output p qs = record p { output_queues = qs }

abbrev pub get_waiting : Direction → RmtPort → ℕ
get_waiting input p = p.waiting_on_input
get_waiting output p = p.waiting_on_output

abbrev pub is_ready : Direction → RmtPort → Bool
is_ready input p = p.input_ready
is_ready output p = p.output_ready

abbrev pub set_waiting : Direction → RmtPort → ℕ → RmtPort
set_waiting input p n = record p { waiting_on_input = n }
set_waiting output p n = record p { waiting_on_output = n }

abbrev pub add_waiting : Direction → RmtPort → RmtPort
add_waiting d p = set_waiting d p (u64 (get_waiting d p + 1))

abbrev pub substract_waiting : Direction → RmtPort → RmtPort
substract_waiting d p = set_waiting d p (u64 (get_waiting d p + u64_mod - 1))

-- `getLongestQueue`: the position of the first queue of the greatest length above 0.
unfoldable pub longest_from : ℕ → ℕ → Option ℕ → List RmtQueue → Option ℕ
longest_from longest i result [] = result
longest_from longest i result (q ∷ qs) =
    let longer = longest_from (length q.queue) (i + 1) (some i) qs in
    let same = longest_from longest (i + 1) result qs in
    if ltb longest (length q.queue) then longer else same

unfoldable pub get_longest_queue : Direction → RmtPort → Option ℕ
unfolding longest_from
get_longest_queue d p = longest_from 0 0 none (queues_of d p)

-- `postQueueDeparture`: an input port is busy until the next read, an output port until the PDU is out.
unfoldable pub post_queue_departure : Direction → RmtPort → RmtPort
post_queue_departure input p = record (substract_waiting input p) {
  input_ready = false;
  reads_scheduled = p.reads_scheduled + 1;
}
post_queue_departure output p = record (substract_waiting output p) { output_ready = false }

-- `releasePDU` on the queue at a position.
unfoldable pub release_from : Direction → ℕ → RmtQueue → List RmtPdu → RmtPort → RmtPort
unfolding post_queue_departure
release_from d i q [] p = p
release_from d i q (x ∷ rest) p =
    let popped = set_queues d p (set (queues_of d p) i (record q { queue = rest })) in
    post_queue_departure d (record popped { released = p.released ++ (d, x) ∷ [] })

unfoldable pub release_pdu : Direction → ℕ → RmtPort → Result RmtPort
unfolding release_from
release_pdu d i p = elim (get_elem? (queues_of d p) i) [
  | none ↦ err bad_index
  | some q ↦ ok (release_from d i q q.queue p)
]

-- `LongestQFirst::processQueues`.
unfoldable pub process_queues : Direction → RmtPort → Result RmtPort
unfolding get_longest_queue release_pdu
process_queues d p =
    let released : Result RmtPort = elim (get_longest_queue d p) [
      | none ↦ err null_queue
      | some i ↦ release_pdu d i p
    ] in
    if is_ready d p && ltb 0 (get_waiting d p) then released else ok p

abbrev pub put : Direction → RmtPort → ℕ → RmtQueue → RmtPort
put d p i q = set_queues d p (set (queues_of d p) i q)

-- The policy on a full queue runs from the threshold on.
unfoldable pub check_length : MaxQPolicy → RmtQueue → RmtQueue × Bool
unfolding run_max_q
check_length m q = if ltb (length q.queue) q.threshold_q_length then (q, false) else run_max_q m q

-- `enqueuePDU` with `postQueueArrival`, on the queue at a position.
unfoldable pub arrive_at : MaxQPolicy → Direction → ℕ → RmtQueue → RmtPdu → RmtPort → Result RmtPort
unfolding enqueue_pdu drop_last check_length process_queues
arrive_at m d i q x p =
    let e = enqueue_pdu q x in
    let checked = check_length m e in
    if x.has_bit_error
    then ok (put d p i (drop_last e))
    else if checked.1
    then ok (put d p i (drop_last checked.0))
    else process_queues d (add_waiting d (put d p i checked.0))

unfoldable pub arrive : MaxQPolicy → Direction → ℕ → RmtPdu → RmtPort → Result RmtPort
unfolding arrive_at
arrive m d i x p = elim (get_elem? (queues_of d p) i) [
  | none ↦ err bad_index
  | some q ↦ arrive_at m d i q x p
]

-- `setOutputReady` and `setInputReady`, whose signals start the scheduler.
unfoldable pub set_output_ready : RmtPort → Result RmtPort
unfolding process_queues
set_output_ready p =
    let served = process_queues output (record p { output_ready = true }) in
    if p.blocked_output then ok p else served

unfoldable pub set_input_ready : RmtPort → Result RmtPort
unfolding process_queues
set_input_ready p =
    let read = process_queues input (record p { input_ready = true }) in
    if p.blocked_input then ok p else read

-- `blockOutput`, `unblockOutput`, `blockInput`, `unblockInput`.
unfoldable pub block_output : RmtPort → RmtPort
block_output p = record p { blocked_output = true; output_ready = false }

unfoldable pub unblock_output : RmtPort → Result RmtPort
unfolding set_output_ready
unblock_output p = set_output_ready (record p { blocked_output = false })

unfoldable pub block_input : RmtPort → RmtPort
block_input p = record p { blocked_input = true }

unfoldable pub unblock_input : RmtPort → Result RmtPort
unfolding set_input_ready
unblock_input p = set_input_ready (record p { blocked_input = false })
