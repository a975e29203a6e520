-- ===== src/Socket/Arrival.antt =====
-- The way of a segment through DoForwardUp to the function of the state
-- (NS3/1705069/TaskB/tcp-socket-base.cc).
use cse_322_computer_network.Base.{
  ◌≡◌, ◌∙◌, arith, Bool, true, false, if◌then◌else◌, Option, none, some,
}
use cse_322_computer_network.Wire.{TcpHeader}
use cse_322_computer_network.Net.{Net}
use cse_322_computer_network.Socket.State.{Peer, Socket}
use cse_322_computer_network.Socket.Input.{
  dispatch, note_cwr, read_syn, read_ack, enter_persist, leave_persist, do_forward_up,
}
use cse_322_computer_network.Socket.Reading.{
  Untouched, trans-Untouched, note_cwr-Untouched, read_syn-Untouched, read_ack-Untouched,
  enter_persist-Untouched, has_timestamp, read_ack-reads,
}

module _ {x : Net} where
  -- The function of the state gets the segment, with the socket as it was but for what the header
  -- says.
  pub record IsDispatched (p : x.Packet) (h : TcpHeader) (accepts : Bool) (peer : Peer)
      (s : Socket x) : Type 0 where
    pub read : Socket x
    pub untouched : Untouched s read
    pub result :
        do_forward_up p h accepts peer s ≡ leave_persist (dispatch read.state p h accepts peer read)

  note_cwr-timestamp :
      (h : TcpHeader) (s : Socket x) → has_timestamp h (note_cwr h.flags s) ≡ has_timestamp h s
  unfolding note_cwr
  note_cwr-timestamp h s = ground arith

  read_first :
      (a b : Bool) (o : Option (Socket x)) (u v w z : Socket x) (f : Socket x → Socket x)
      → a ≡ false
      → b ≡ true
      → o ≡ some u
      → (if a then v else if b then elim o [ none ↦ w | some t ↦ f t ] else z) ≡ f u
  read_first a b o u v w z f p q e = rw (p, q, e)

  pub ack-IsDispatched :
      (p : x.Packet) (h : TcpHeader) (accepts : Bool) (peer : Peer) (s : Socket x)
      → h.flags.syn ≡ false
      → h.flags.ack ≡ true
      → has_timestamp h s ≡ true
      → IsDispatched p h accepts peer s
  unfolding do_forward_up
  ack-IsDispatched p h accepts peer s syn ack stamp =
      let t : Socket x = note_cwr h.flags s in
      let (u, e) = read_ack-reads h t (note_cwr-timestamp h s ∙ stamp) in
      let rest = λ (w : Socket x).
        let v = enter_persist w in leave_persist (dispatch v.state p h accepts peer v) in
      record {
        read = enter_persist u;
        untouched =
            trans-Untouched (note_cwr-Untouched h s)
              (trans-Untouched (read_ack-Untouched h t u e) (enter_persist-Untouched u));
        result =
            read_first h.flags.syn h.flags.ack (read_ack h t) u (rest (read_syn h t)) t (rest t)
              rest syn ack e;
      }

  pub syn-IsDispatched :
      (p : x.Packet) (h : TcpHeader) (accepts : Bool) (peer : Peer) (s : Socket x)
      → h.flags.syn ≡ true
      → IsDispatched p h accepts peer s
  unfolding do_forward_up
  syn-IsDispatched p h accepts peer s syn =
      let t : Socket x = note_cwr h.flags s in
      let u : Socket x = read_syn h t in
      record {
        read = enter_persist u;
        untouched =
            trans-Untouched (note_cwr-Untouched h s)
              (trans-Untouched (read_syn-Untouched h t) (enter_persist-Untouched u));
        result = rw syn;
      }
