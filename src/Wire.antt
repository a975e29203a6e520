-- ===== src/Wire.antt =====
-- What goes over the wire and to the application: TCP flags and headers as
-- NS3/1705069/TaskB/tcp-socket-base.cc reads and writes them through TcpHeader and TcpOption.
use cse_322_computer_network.Base.{ℕ, Bool, true, false, ◌&&◌, same, List}

-- The flag byte, bit by bit.
pub record Flags : Type 0 where
  pub fin : Bool
  pub syn : Bool
  pub rst : Bool
  pub psh : Bool
  pub ack : Bool
  pub urg : Bool
  pub ece : Bool
  pub cwr : Bool

abbrev pub no_flags : Flags
no_flags = record {
  fin = false;
  syn = false;
  rst = false;
  psh = false;
  ack = false;
  urg = false;
  ece = false;
  cwr = false;
}

abbrev pub flag_fin : Flags
flag_fin = record no_flags { fin = true }

abbrev pub flag_syn : Flags
flag_syn = record no_flags { syn = true }

abbrev pub flag_rst : Flags
flag_rst = record no_flags { rst = true }

abbrev pub flag_ack : Flags
flag_ack = record no_flags { ack = true }

abbrev pub flag_ack_ece : Flags
flag_ack_ece = record no_flags { ack = true; ece = true }

abbrev pub flag_fin_ack : Flags
flag_fin_ack = record no_flags { fin = true; ack = true }

abbrev pub flag_syn_ack : Flags
flag_syn_ack = record no_flags { syn = true; ack = true }

abbrev pub flag_syn_ack_ece : Flags
flag_syn_ack_ece = record no_flags { syn = true; ack = true; ece = true }

abbrev pub flag_syn_ece_cwr : Flags
flag_syn_ece_cwr = record no_flags { syn = true; ece = true; cwr = true }

-- `a == b` on the byte.
abbrev pub flags_eq : Flags → Flags → Bool
flags_eq a b =
    same a.fin b.fin
    && same a.syn b.syn
    && same a.rst b.rst
    && same a.psh b.psh
    && same a.ack b.ack
    && same a.urg b.urg
    && same a.ece b.ece
    && same a.cwr b.cwr

-- `flags & ~(PSH | URG)`.
abbrev pub without_psh_urg : Flags → Flags
without_psh_urg f = record f { psh = false; urg = false }

-- `flags & ~(PSH | URG | CWR | ECE)`.
abbrev pub without_extras : Flags → Flags
without_extras f = record f { psh = false; urg = false; cwr = false; ece = false }

pub record SackBlock : Type 0 where
  pub left_edge : ℕ
  pub right_edge : ℕ

pub data TcpOption : Type 0 where
  win_scale : ℕ → TcpOption
  sack_permitted : TcpOption
  sack : List SackBlock → TcpOption
  timestamp : ℕ → ℕ → TcpOption
  other_option : TcpOption

pub record TcpHeader : Type 0 where
  pub flags : Flags
  pub seq : ℕ
  pub ack_number : ℕ
  pub window_size : ℕ
  pub source_port : ℕ
  pub destination_port : ℕ
  pub options : List TcpOption

-- What a socket hands to the layers around it: a segment with the size of its data to
-- TcpL4Protocol, the notifications of the application, and calls that are scheduled to run at once.
pub data Output : Type 0 where
  sent : TcpHeader → ℕ → Output
  notify_send : ℕ → Output
  notify_data_recv : Output
  notify_normal_close : Output
  notify_error_close : Output
  notify_connection_failed : Output
  notify_connection_succeeded : Output
  notify_new_connection_created : Output
  scheduled_connection_succeeded : Output
  scheduled_data_sent : ℕ → Output
  scheduled_fork : TcpHeader → Output
  deallocated : Output
