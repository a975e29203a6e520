-- ===== src/Socket/Marks.antt =====
-- Which packets are marked as ECN-capable (AddSocketTags of NS3/1705069/TaskB/tcp-socket-base.cc).
use cse_322_computer_network.Base.{ℕ, ◌/◌, ◌%◌, ◌<◌, ◌≡◌, arith, false, not, ◌&&◌, ◌==◌, [], ◌∷◌}
use cse_322_computer_network.Tcb.{
  Tcb, EcnCodePoint, not_ect, ect1, ect0, cong_exp, classic_ecn, is_ecn_disabled,
}
use cse_322_computer_network.Socket.Tags.{
  IpSettings, ip_tos_tag, code, mark_ecn_code_point, check_no_ecn, set_field, tos_tags,
}

-- A mark sets the two low bits of the field and keeps the others.
mark-bits :
    (tos : ℕ) (p : EcnCodePoint)
    → (mark_ecn_code_point tos p % 4 ≡ code p) × (mark_ecn_code_point tos p / 4 ≡ tos / 4)
unfolding mark_ecn_code_point
mark-bits tos not_ect = omega arith
mark-bits tos ect1 = omega arith
mark-bits tos ect0 = omega arith
mark-bits tos cong_exp = omega arith

-- With ECN negotiated, a packet with data on a socket whose type of service is unset or has a
-- mark to replace takes one tag for it, whose two low bits are the ECT code point of the control
-- block and whose other bits are those of the setting.
pub tos_tags-marked :
    (i : IpSettings) (size : ℕ) (t : Tcb)
    → is_ecn_disabled t.ecn_state ≡ false
    → 0 < size
    → check_no_ecn i.ip_tos && not (i.ip_tos == 0) ≡ false
    → (m : ℕ) × (tos_tags i size t ≡ ip_tos_tag m ∷ [])
      × (m % 4 ≡ code t.ect_code_point)
      × (m / 4 ≡ i.ip_tos / 4)
unfolding tos_tags set_field
tos_tags-marked i size t on pos some_mark =
    let b = mark-bits i.ip_tos t.ect_code_point in
    (mark_ecn_code_point i.ip_tos t.ect_code_point, ground arith, b.0, b.1)

-- A packet of no data.
pub tos_tags-unmarked :
    (i : IpSettings) (t : Tcb) → t.ecn_mode ≡ classic_ecn → i.ip_tos ≡ 0 → tos_tags i 0 t ≡ []
unfolding tos_tags
tos_tags-unmarked i t mode z = ground arith
