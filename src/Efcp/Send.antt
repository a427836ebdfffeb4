-- ===== src/Efcp/Send.antt =====
-- The sending side of src/DIF/EFCP/DTP/DTP.cc: `delimit`, `generatePDUsnew`, `trySendGenPDUs` and
-- `handleMsgFromDelimiting`, with the default policies TxControl, FCOverrun, NoRateSlowDown,
-- NoOverridePeak and ReconcileFC of policies/DIF/EFCP/DTCP.
pub mod Generate
pub mod Delimit
pub mod Rounds
pub mod Window
pub mod Rate
use rinasim.Base.{
  ℕ, zero, suc, ◌+◌, List, [], ◌∷◌, ◌++◌, Bool, true, false, ◌||◌, ltb, leb, if◌then◌else◌, u32,
  sub32, Option, none, some, Result, ok, err, out_of_fuel, bad_current_pdu, empty_queue, ◌>>=◌,
  length, is_empty, not, ◌&&◌,
}
use rinasim.Efcp.Sdu.{Sdu, UserDataField, new_field, add_data, get_size, fragments_from}
use rinasim.Efcp.Pdu.{Pdu, DataPdu, data_transfer, control, other_pdu}
use rinasim.Efcp.State.{
  DtpState, DtcpState, Efcp, set_dtp, set_dtcp, add_timer_op, first_or, update_snd_lwe,
  sender_inactivity, schedule, cancel,
}
use rinasim.Efcp.Output.{
  send_to_rmt, notify_stop_sending, push_back_to_rxq, next_data_pdu, take_seq_num,
}

abbrev pub max_pdu_size : ℕ
max_pdu_size = 1500

-- `DTP::delimit`: an SDU above the flow's size goes into the data queue in fragments.
unfoldable pub delimit : Efcp → Sdu → Result Efcp
delimit e s =
    let size = e.dtp.max_flow_pdu_size in
    if ltb size (get_size s)
    then (fragments_from (suc (get_size s)) s size 0 >>= λ fs.
        ok (record e { data_q = e.data_q ++ fs }))
    else ok (record e { data_q = e.data_q ++ s ∷ [] })

-- The inner loop of `generatePDUsnew`: the field takes SDUs while they fit.
unfoldable pub fill : List Sdu → UserDataField → UserDataField × List Sdu
fill [] u = (u, [])
fill (s ∷ ss) u =
    let rest = fill ss (add_data u s) in
    if leb (get_size s) (sub32 max_pdu_size u.field_size) then rest else (u, s ∷ ss)

-- One round of the outer loop.
unfoldable pub generate_one : Efcp → Efcp
unfolding fill next_data_pdu take_seq_num new_field
generate_one e =
    let filled = fill e.data_q new_field in
    let p = record (next_data_pdu e) { user_data_field = filled.0 } in
    let t = take_seq_num e in
    record (set_dtp t (record t.dtp { generated_pdus = t.dtp.generated_pdus ++ p ∷ [] })) {
      data_q = filled.1;
    }

unfoldable pub generate_loop : ℕ → Efcp → Result Efcp
generate_loop zero e = err out_of_fuel
generate_loop (suc fuel) e = elim (is_empty e.data_q) [
  | true ↦ ok e
  | false ↦ generate_loop fuel (generate_one e)
]

unfoldable pub generate_pdus : Efcp → Result Efcp
unfolding generate_loop
generate_pdus e = generate_loop (suc (length e.data_q)) e

-- The queue that `trySendGenPDUs` is called on.
pub data Source : Type 0 where
  generated closed_window_queue : Source

abbrev pub queue_of : Source → Efcp → List DataPdu
queue_of generated e = e.dtp.generated_pdus
queue_of closed_window_queue e = e.dtcp.closed_window_q

-- The PDUs that the window is open for, up to the first that it is closed for, and the others.
unfoldable pub open_prefix : ℕ → List DataPdu → List DataPdu
open_prefix edge [] = []
open_prefix edge (p ∷ ps) =
    let rest = open_prefix edge ps in if leb p.seq_num edge then p ∷ rest else []

unfoldable pub past_prefix : ℕ → List DataPdu → List DataPdu
past_prefix edge [] = []
past_prefix edge (p ∷ ps) =
    let rest = past_prefix edge ps in if leb p.seq_num edge then rest else p ∷ ps

abbrev pub closed_len : Efcp → ℕ
closed_len e = length e.dtcp.closed_window_q

-- Nothing is left to send and the closed window queue has room.
abbrev has_room : Efcp → Bool
has_room e = is_empty e.dtp.generated_pdus && not (leb e.dtcp.max_closed_win_que_len (closed_len e))

-- `TxControlPolicyBase::defaultAction` after its loop.
close_if_full : Efcp → Efcp
close_if_full e = if has_room e then e else set_dtcp e (record e.dtcp { closed_window = true })

-- The loop over the generated PDUs: those that the window is open for become postable.
release_generated : Efcp → Efcp
unfolding open_prefix past_prefix
release_generated e =
    let q = e.dtp.generated_pdus in
    set_dtp e (record e.dtp {
      postable_pdus = e.dtp.postable_pdus ++ open_prefix e.dtcp.snd_rt_win_edge q;
      generated_pdus = past_prefix e.dtcp.snd_rt_win_edge q;
    })

-- The same loop over the closed window queue.
release_closed : Efcp → Efcp
unfolding open_prefix past_prefix
release_closed e =
    let q = e.dtcp.closed_window_q in
    let opens = open_prefix e.dtcp.snd_rt_win_edge q in
    set_dtcp (set_dtp e (record e.dtp { postable_pdus = e.dtp.postable_pdus ++ opens }))
      (record e.dtcp { closed_window_q = past_prefix e.dtcp.snd_rt_win_edge q })

-- `TxControlPolicyBase::defaultAction`: it chooses its queue itself.
unfoldable pub tx_control : Efcp → Efcp
unfolding release_generated release_closed close_if_full
tx_control e =
    close_if_full (if is_empty e.dtp.generated_pdus then release_closed e else release_generated e)

push_to_closed : Efcp → DataPdu → Efcp
push_to_closed e p =
    set_dtcp e (record e.dtcp { closed_window_q = e.dtcp.closed_window_q ++ p ∷ [] })

-- `pushBackToClosedWinQ((DataTransferPDU*) getCurrentPdu())`.
push_current : Option Pdu → Efcp → Result Efcp
unfolding push_to_closed
push_current (some (data_transfer p)) e = ok (push_to_closed e p)
push_current (some (control p)) e = err bad_current_pdu
push_current (some other_pdu) e = err bad_current_pdu
push_current none e = err bad_current_pdu

abbrev drop_first : List DataPdu → List DataPdu
drop_first [] = []
drop_first (p ∷ ps) = ps

-- Whether the `for` goes on.
pub data Round : Type 0 where
  stop go : Efcp → Round

-- The window part of a round, at the first PDU of the queue.
unfoldable pub window_round : Source → DataPdu → Efcp → Round
unfolding push_to_closed tx_control
window_round q p e =
    let closed = set_dtcp e (record e.dtcp { closed_window = true }) in
    let erased =
      set_dtp closed (record e.dtp { generated_pdus = drop_first e.dtp.generated_pdus }) in
    let refused = set_dtp erased (record erased.dtp { current_pdu = some (data_transfer p) }) in
    if leb p.seq_num e.dtcp.snd_rt_win_edge then go (tx_control e) else elim q [
      | closed_window_queue ↦ stop closed
      | generated ↦
          if ltb (closed_len e) (sub32 e.dtcp.max_closed_win_que_len 1)
          then go (push_to_closed erased p)
          else go (notify_stop_sending (push_to_closed refused p))
    ]

-- The rate part of a round.
unfoldable pub rate_round : Efcp → Result Efcp
unfolding push_current
rate_round e =
    let full = set_dtcp e (record e.dtcp { sending_rate_fullfilled = true }) in
    let pushed = push_current e.dtp.current_pdu full in
    if ltb e.dtcp.pdus_sent_in_time_unit e.dtcp.sending_rate
    then elim e.dtp.generated_pdus [
      | [] ↦ err empty_queue
      | p ∷ ps ↦ ok (
          set_dtcp
            (set_dtp e
              (record e.dtp { generated_pdus = ps; postable_pdus = e.dtp.postable_pdus ++ p ∷ [] }))
            (record e.dtcp { pdus_sent_in_time_unit = u32 (e.dtcp.pdus_sent_in_time_unit + 1) }))
    ]
    else if ltb (closed_len e) (sub32 e.dtcp.max_closed_win_que_len 1)
    then pushed
    else ok full

unfoldable pub send_round : Source → DataPdu → Efcp → Round
unfolding window_round
send_round q p e = if e.dtp.win_based then window_round q p e else go e

unfoldable pub paced : Efcp → Result Efcp
unfolding rate_round
paced e = if e.dtp.rate_based then rate_round e else ok e

-- The `for` over the queue; `ReconcileFC` does nothing by default.
unfoldable pub send_loop : ℕ → Source → Efcp → Result Efcp
send_loop zero q e = err out_of_fuel
send_loop (suc fuel) q e = elim (queue_of q e) [
  | [] ↦ ok e
  | p ∷ ps ↦ elim (send_round q p e) [ stop a ↦ ok a | go a ↦ paced a >>= λ b. send_loop fuel q b ]
]
