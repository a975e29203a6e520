-- ===== src/Lib.antt =====
-- TCP with a modified TcpVegas, a part of ns-3 that the repository changes
-- (NS3/1705069/TaskB). Two files hold the congestion control (tcp-vegas.cc, tcp-socket-state.h),
-- and one the socket that calls it (tcp-socket-base.cc). The modification lets a connection that
-- sees its round trips rise turn from Vegas to the window increase of TcpNewReno ("aggresive", the
-- spelling of the source), and back when it loses packets.
--
-- The parts, and the files that model them:
-- - Tcb.antt: TcpSocketState, the control block that the socket shares with its congestion control;
--   m_cWnd is c_wnd, m_ssThresh ss_thresh, and so on, and the members lastRtt and lastCwnd of the
--   modification are vegas_last_rtt and vegas_last_cwnd.
-- - Vegas.antt: the class TcpVegas, one function for each method (PktsAcked is pkts_acked). The
--   object and the block go in and come out. Vegas/Ops.antt makes the interface TcpCongestionOps of
--   it (Congestion.antt), which a socket takes as a parameter.
-- - Socket/State.antt: the members of TcpSocketBase. An event that is pending holds the time it is
--   due. What a socket hands to the layers around it is a list of outputs, newest first.
-- - Socket/Send, Transmit, Loop, Close, Receive, Ack, ProcessAck, ReceivedAck, Process, Ending,
--   Input, Timeouts, Api: the methods of TcpSocketBase, one function for each, with helpers for the
--   branches of the long ones. An arriving segment goes from forward_up over do_forward_up and
--   dispatch to the function of the state, from there to received_ack and process_ack, and into the
--   congestion control.
-- - Socket/Create, Settings, Address, Fork, Tags: the creation of a socket, its setters, Bind and
--   Connect with what TcpL4Protocol and the routing answer, the copy of a listening socket, and the
--   tags of a packet. A listening socket hands out scheduled_fork, and accept is what it schedules.
-- - App.antt: MyApp, the application of the simulations (NS3/1705069/TaskB/taskB.cc), which calls a
--   socket by the interface AppSocket; App/Tcp.antt makes that interface of the model's socket.
-- - Simulation.antt: the loops of the three scripts that set up flows (NS3/1705069/TaskB/taskB.cc,
--   NS3/1705069/TaskA/taskA_1.cc, taskA_2.cc), as the calls they make; Simulation/Report.antt the
--   totals that they print.
-- - Wire.antt: flags, headers, options, outputs.
-- - Socket/Steps.antt: the course of a connection as a relation of steps, one for each handler, call
--   and timer. Vegas/Reference.antt: TcpVegas without the modification, to compare with.
-- - The other modules below Vegas, Socket, App and Simulation hold the proofs; Scenario.antt is a
--   concrete world, and Examples the theorems at work in it.
--
-- Code of ns-3 that the repository does not hold is a parameter: Net.antt is the record of it
-- (buffers, estimators, recovery and rate operations), Sequence.antt the arithmetic of
-- SequenceNumber32, Double.antt that of `double`. Laws of it are records that a theorem takes:
-- IsIeee for monotone rounding, IsSending for the scoreboard of TcpTxBuffer and the event that
-- transmission starts, which TcpNewReno ignores; IsCalm for a congestion state and a threshold that
-- only the socket sets (IsCalmReno for the parent class of TcpVegas); and IsUnaware for a
-- TcpNewReno that does not know the members of the modification.
--
-- Numbers are natural numbers. Arithmetic of uint32_t wraps at 2 ^ 32 where the source can pass it;
-- times are nanoseconds and do not overflow; v_count is an int that never is negative. NS_ASSERT is
-- not a branch of the model. The callbacks of the application do not call back into the socket: what
-- they would do is a further step. The shift of an int that doubles the timeout of a SYN is a power
-- of two below 31, and a parameter from there on (backoff_count, overflown_shift), since C++ does not
-- settle it. Where a segment came from is a pair of address and port.
--
-- Fuel: the loop of SendPendingData takes one round more than the available window has bytes, and
-- the loop of CalculateWScale 32 rounds, since a uint32_t is 0 after 32 halvings; a
-- packet takes at least a byte of the window.
--
-- Not modelled: registration, logging and trace sinks; ICMP callbacks; the topologies of the
-- simulation scripts; the Java file server and the Packet Tracer files of the repository.
mod Base
pub mod Tcb
pub mod Sequence
pub mod Double
pub mod Congestion
pub mod Vegas
pub mod Wire
pub mod Net
pub mod Socket
pub mod App
pub mod Simulation
pub mod Scenario
mod Examples
