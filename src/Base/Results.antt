-- ===== src/Base/Results.antt =====
-- Results of code that may throw a `cRuntimeError`, or that may not come back.

pub data Error : Type 0 where
  -- `addPDUToReassemblyQ`: a second PDU with a queued sequence number.
  same_seq_num : Error
  -- `handleMsgFromRMT`: neither a data transfer nor a control PDU.
  unexpected_pdu_type : Error
  -- `RxTimerExpiryPolicyBase`: every timer is scheduled.
  no_rx_timer : Error
  -- A policy reads the current PDU, and it is not a data transfer PDU.
  bad_current_pdu : Error
  -- `front()` of an empty queue.
  empty_queue : Error
  -- An index past the end of a generated array field.
  bad_index : Error
  -- A call through a `NULL` queue.
  null_queue : Error
  -- A call through a `NULL` entry of the enrolment table.
  null_entry : Error
  -- `gateHalf` of a gate that the module does not have.
  no_gate : Error
  -- The loop did not end within the fuel.
  out_of_fuel : Error

pub data Result {ℓ} (A : Type ℓ) : Type ℓ where
  ok : A → Result A
  err : Error → Result A

-- The next step runs on the result of the first, unless that one threw.
infixl 5 ◌>>=◌
abbrev pub ◌>>=◌ {ℓ κ} : {S : Type ℓ} {T : Type κ} → Result S → (S → Result T) → Result T
ok state >>= next = next state
err thrown >>= next = err thrown
