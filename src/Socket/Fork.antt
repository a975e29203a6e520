-- ===== src/Socket/Fork.antt =====
-- The copy of a listening socket that serves a connection: the copy constructor, Fork, and the
-- accepted socket up to its SYN-ACK (NS3/1705069/TaskB/tcp-socket-base.cc).
use cse_322_computer_network.Base.{ℕ, Option, none, []}
use cse_322_computer_network.Tcb.{copy_tcb}
use cse_322_computer_network.Wire.{TcpHeader}
use cse_322_computer_network.Net.{Net}
use cse_322_computer_network.Socket.State.{Socket, EndPoint, ◌▷◌, set_tcb, cong_call}
use cse_322_computer_network.Socket.Input.{complete_fork}

-- How ns-3 copies the objects that a socket holds, and what a new block has in `lastCwnd`, which
-- nothing initialises.
pub record Copies (x : Net) : Type 0 where
  pub copy_rtt : x.Rtt → x.Rtt
  pub copy_tx : x.Tx → x.Tx
  pub copy_rx : x.Rx → x.Rx
  pub fork_recovery : x.Recovery → x.Recovery
  pub new_rate : x.Rate
  pub garbage : ℕ

module _ {x : Net} where
  -- The members outside the list of the constructor take the initialisers of the header. The
  -- congestion control is forked and initialised on the block of the copy.
  unfoldable pub fork : Copies x → Socket x → Socket x
  fork k sock =
      record sock {
        outputs = [];
        retx_event = none;
        last_ack_event = none;
        del_ack_event = none;
        persist_event = none;
        timewait_event = none;
        send_pending_data_event = none;
        pacing_timer = none;
        del_ack_count = 0;
        history = [];
        end_point = none;
        end_point6 = none;
        rtt = k.copy_rtt sock.rtt;
        tx_buffer = k.copy_tx sock.tx_buffer;
        rx_buffer = k.copy_rx sock.rx_buffer;
        high_tx_ack = 0;
        adv_wnd = 0;
        tcb = copy_tcb k.garbage sock.tcb;
        congestion = x.cong.fork sock.congestion;
        recovery = k.fork_recovery sock.recovery;
        rate = k.new_rate;
      }
      ▷ set_tcb (λ t. record t { pacing_rate = t.max_pacing_rate })
      ▷ cong_call x.cong.init

  -- What the request of a peer leaves once the scheduled CompleteFork has run.
  unfoldable pub accept :
      Copies x → Option EndPoint → Option EndPoint → TcpHeader → Socket x → Socket x
  accept k e e6 header s = complete_fork e e6 header (fork k s)
