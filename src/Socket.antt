-- ===== src/Socket.antt =====
-- TcpSocketBase of NS3/1705069/TaskB/tcp-socket-base.cc: the members in State, then the methods by
-- what they do, then the modules of proofs.
pub mod State
pub mod Send
pub mod Transmit
pub mod Loop
pub mod Close
pub mod Receive
pub mod Ack
pub mod ProcessAck
pub mod ReceivedAck
pub mod Process
pub mod Ending
pub mod Input
pub mod Fork
pub mod Settings
pub mod Create
pub mod Tags
pub mod Timeouts
pub mod Api
pub mod Address
pub mod Reset
pub mod Accept
pub mod Connecting
pub mod WindowScale
pub mod RttHistory
pub mod Persist
pub mod Counting
pub mod Window
pub mod DupAcks
pub mod Sending
pub mod Fuel
pub mod Backoff
pub mod Modes
pub mod Phase
pub mod AckPhase
pub mod DataPhase
pub mod ReceivedPhase
pub mod SynPhase
pub mod Progress
pub mod Follows
pub mod HandlerFollows
pub mod AnswerFollows
pub mod HandshakeFollows
pub mod Transitions
pub mod Steady
pub mod CongSteps
pub mod CongTable
pub mod AckSteady
pub mod CongStates
pub mod CwrOnce
pub mod Spared
pub mod SparedHandlers
pub mod SparedInput
pub mod Losses
pub mod Release
pub mod Reading
pub mod Arrival
pub mod Keeps
pub mod Steps
pub mod StepKeeps
pub mod Orders
pub mod Handshake
pub mod Fresh
pub mod Naming
pub mod WindowTrip
pub mod Marks
pub mod Unreachable
