-- ===== src/Lib.antt =====
-- RINASIM: the Error and Flow Control Protocol of the RINA simulator, the ports, queues and relaying of
-- its Relaying and Multiplexing Task, its routing policies, its forwarding tables, the enrolment of a
-- process, and the allocation of flows between processes.
--
-- A connection is one EFCP instance: DTP moves data, DTCP paces and repeats it. SDUs come from the
-- delimiting module, go into a data queue, are packed into numbered PDUs, and leave for the RMT as
-- the window and the rate allow; copies wait in a retransmission queue for acknowledgements. On the
-- other side PDUs enter a reassembly queue, the left window edge follows them, SDUs go north, and
-- acknowledgements and credit go back as control PDUs.
--
--   Efcp/Sdu          src/Common/SDU.cc, src/DIF/EFCP/DTP/UserDataField.cc, src/DIF/Delimiting/Delimiting.cc
--   Efcp/Pdu          src/Common/PDU.msg, src/DIF/EFCP/DTCP/ControlPDU.msg, DTP::setPDUHeader
--   Efcp/State        src/DIF/EFCP/DTP/DTPState.*, src/DIF/EFCP/DTCP/DTCPState.*, the timers
--   Efcp/Output       DTP::sendToRMT, sendAckFlowPDU, sendFCOnlyPDU, sendControlAckPDU, sendEmptyDTPDU,
--                     notifyStartSending, notifyStopSending, DTCP::pushBackToRxQ
--   Efcp/Reassembly   DTPState::addPDUToReassemblyQ, updateRcvLWE, DTP::isDuplicate, delimitFromRMT
--   Efcp/Retransmit   DTCP::ackPDU, nackPDU, handleDTCPRxExpiryTimer, DTCPState::deleteRxTimer
--   Efcp/Send         DTP::delimit, generatePDUsnew, the loop of trySendGenPDUs
--   Efcp/Transmit     DTP::trySendGenPDUs, handleMsgFromDelimiting
--   Efcp/Receive      DTP::handleDataTransferPDUFromRMT, svUpdate, handleDTPATimer
--   Efcp/Control      DTP::commonRcvControl, handleMsgFromRMT, DTCP::handleSendingRateTimer
--   Efcp/Examples     concrete connections
--   Rmt/Queue         src/DIF/RMT/RMTQueue.cc, policies/DIF/RMT/MaxQueue (base class, TailDrop, ECNMarker)
--   Rmt/Port          src/DIF/RMT/RMTPort.cc, RMT::postQueueArrival and postQueueDeparture,
--                     policies/DIF/RMT/Scheduler/LongestQFirst
--   Rmt/Monitor       policies/DIF/RMT/Monitor/DLMonitor/DLMonitor.cc
--   Rmt/Relay         RMT::processMessage, relayPDUToPort, relayPDUToEFCPI, createEfcpiGate, deleteEfcpiGate
--   Routing           policies/DIF/Routing/SimpleRouting/IntSimpleRouting.h
--   Routing/Distance  policies/DIF/Routing/SimpleRouting/SimpleDV/SimpleDV.cc
--   Routing/LinkState policies/DIF/Routing/SimpleRouting/SimpleLS/SimpleLS.cc, without getChanges and getAll
--   Forwarding        policies/DIF/RMT/PDUForwarding: MiniTable, SimpleTable and QoSTable (QosTable);
--                     policies/DIF/RA/PDUFG/SimpleGenerator, IntRouting::receiveUpdate (Generator)
--   Enrollment        src/DIF/Enrollment: EnrollmentStateTable.cc, EnrollmentStateTableEntry.cc, EnrollmentObj.cc
--                     (the root), Enrollment.cc (Connect and Enroll), EnrollmentListeners.cc (Exchange)
--   Allocation        src/Common/Flow.cc, ConnectionId.cc
--   Allocation/Table  src/DIF/FA/FAITable.cc, FAITableEntry.cc
--   Allocation/Instance  src/DIF/FA/FAI.cc, policies/DIF/FA/AllocateRetry
--   Allocation/Allocator src/DIF/FA/FA.cc; its addresses in Allocation/Addresses
--   Allocation/Listeners src/DIF/FA/FAListeners.cc, FA::handleMessage
--   Allocation/Ribd   src/DIF/RIB/RIBd.cc (the objects that are flows), RIBdListeners.cc,
--                     src/DIF/FA/FAIListeners.cc
--   Base/Maps         std::map and std::set
--   Rmt/Examples      a concrete port
--
-- The default actions of the policies in policies/DIF/EFCP/DTCP stand with the operations that call
-- them. Function names are the source's in this notation: handleMsgFromRMT is handle_msg_from_rmt.
--
-- The record Efcp is the whole state of an instance: both state vectors, the data queue, and as lists,
-- oldest first, what it has handed to its neighbours: SDUs north, PDUs south, timer operations and the
-- signals that stop and start the user. A handler is a function from the state to the next one. Code
-- that throws, reads the front of an empty queue, or may not come back gives a Result.
--
-- A port of the RMT has input and output queues. An arrival goes through the checks for bit errors and
-- length and starts the scheduler, as does the signal of a port that becomes ready; a departure makes the
-- port busy. The record RmtPort is the state of a port with what has left its queues.
--
-- The routing policy keeps, for each QoS, a metric and a next hop for each destination. Updates from
-- other processes and flows that come and go change it, and it collects the changes; the generator
-- takes them over into the forwarding table, which the RMT asks for the port of a PDU. The record
-- SimpleGenerator is the state of all three. A map is a list of keys and values in the order of the
-- keys; operator[] on a missing key makes the entry, as the code relies on. A metric that no
-- assignment has set is none.
--
-- The urgency monitor keeps for each port the queues that wait, by urgency, and counts them. It is
-- written for a call at each arrival that the RMT makes under another name, postPDUInsertion.
--
-- In Rmt/Relay the forwarding policy, the address comparator, the generator of queue names and the
-- queues of the ports are a parameter, the record Policies. A PDU for several ports is one
-- object that all of them get.
--
-- A process enrols over a management flow: it connects, the member checks the authentication, and four
-- more messages end the enrolment. The record Enrollment is the state of the module on one side, a
-- handler works on the entry of the state table that the sender's name finds, and the record Pair is
-- two processes that get each other's messages in order.
--
-- A flow is asked for by an instance of the allocator: the RIB daemon sends its object to the other
-- process, whose allocator makes an instance of its own, asks the application, and answers; or it
-- forwards the request. The record Fa is the state of the allocator of a process: the flows by their
-- pointers, which the table, the instances and the daemon share, the instances, the table, and the
-- signals in the order in which they are given. The record Process adds the daemon. A signal is
-- handled after the handler that gives it, not within it, and a message carries the flow as it is when
-- it is sent. The policy for new flows, the EFCP module, the gates, the resource allocator and the DIF
-- allocator are a parameter, the record Peers; an int id of -1 is the word with that bit pattern.
-- The instance that a theorem is about stands among others, told apart by its local port
-- (Allocation/Own); the process that a new flow reaches (Allocation/Accept) is taken to have none yet,
-- as it has when the management flow reaches it.
--
-- Words are 32 bits wide and wrap around as unsigned int does (u32, sub32); the counters of a port
-- are unsigned long, taken to be 64 bits wide (u64); the metrics of a routing update are 16 bits wide
-- (u16). Loops that erase what they pass run on fuel, one more than the number of rounds that take something off a queue: the length of the queue for
-- ackPDU, generatePDUsnew and delimitFromRMT, the lengths of both queues for trySendGenPDUs. For
-- nackPDU the fuel is an argument. constructTree gets as many rounds as the links have names. A loop that stops short of its end for want of fuel gives
-- out_of_fuel. An exchange of messages in Enrollment runs for a given number of messages, and stands
-- still when none is on the way.
--
-- Not modelled: durations and the round trip time, which are real numbers; the user interface and the
-- statistics; gates and the creation of modules; memory, so that a deleted PDU is one that is in no
-- queue; the resource allocator, the other objects of the RIB daemon and the applications, which for
-- the most part create and wire modules; what a signal of the flow allocator sets off before its
-- handler ends; policies that no file above names.
pub mod Base
pub mod Efcp
pub mod Rmt
pub mod Routing
pub mod Forwarding
pub mod Enrollment
pub mod Allocation
