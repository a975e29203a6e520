-- ===== src/Socket/Tags.antt =====
-- The tags that a packet takes to the network layer: AddSocketTags
-- (NS3/1705069/TaskB/tcp-socket-base.cc) with the marks of tcp-socket-base.h.
use cse_322_computer_network.Base.{
  ℕ, ◌+◌, ◌-◌, ◌%◌, Bool, not, ◌&&◌, ◌||◌, true, false, ltb, ◌==◌, if◌then◌else◌, List, [], ◌∷◌,
  ◌++◌,
}
use cse_322_computer_network.Tcb.{
  Tcb, EcnCodePoint, not_ect, ect1, ect0, cong_exp, EcnMode, classic_ecn, dctcp_ecn,
  is_ecn_disabled,
}

-- What the socket class of ns-3 stores for the network layer.
pub record IpSettings : Type 0 where
  pub ip_tos : ℕ
  pub ipv6_tclass : ℕ
  pub is_manual_tclass : Bool
  pub ip_ttl : ℕ
  pub is_manual_ttl : Bool
  pub ipv6_hop_limit : ℕ
  pub is_manual_hop_limit : Bool
  pub priority : ℕ

pub data Tag : Type 0 where
  ip_tos_tag ipv6_tclass_tag ip_ttl_tag ipv6_hop_limit_tag priority_tag : ℕ → Tag

-- The numbers of the enumeration.
abbrev pub code : EcnCodePoint → ℕ
code not_ect = 0
code ect1 = 1
code ect0 = 2
code cong_exp = 3

-- `(tos & 0xfc) | codePoint` on a byte.
unfoldable pub mark_ecn_code_point : ℕ → EcnCodePoint → ℕ
mark_ecn_code_point tos point = tos - tos % 4 + code point

-- `(tos & 0x03) == 0x00`.
unfoldable pub check_no_ecn : ℕ → Bool
check_no_ecn tos = tos % 4 == 0

abbrev pub is_dctcp : EcnMode → Bool
is_dctcp dctcp_ecn = true
is_dctcp classic_ecn = false

-- A field that is set: marked if ECN is on and it has a mark to replace.
unfoldable pub set_field : ℕ → Tcb → ℕ
set_field field tcb =
    if not (is_ecn_disabled tcb.ecn_state) && not (check_no_ecn field)
    then mark_ecn_code_point field tcb.ect_code_point
    else field

-- A field that is not set gives a tag for data with ECN on, and always in the mode of DCTCP.
abbrev pub tags_unset : ℕ → Tcb → Bool
tags_unset size tcb = not (is_ecn_disabled tcb.ecn_state) && ltb 0 size || is_dctcp tcb.ecn_mode

unfoldable pub tos_tags : IpSettings → ℕ → Tcb → List Tag
tos_tags i size tcb =
    if not (i.ip_tos == 0)
    then ip_tos_tag (set_field i.ip_tos tcb) ∷ []
    else if tags_unset size tcb
    then ip_tos_tag (mark_ecn_code_point i.ip_tos tcb.ect_code_point) ∷ []
    else []

unfoldable pub tclass_tags : IpSettings → ℕ → Tcb → List Tag
tclass_tags i size tcb =
    if i.is_manual_tclass
    then ipv6_tclass_tag (set_field i.ipv6_tclass tcb) ∷ []
    else if tags_unset size tcb
    then ipv6_tclass_tag (mark_ecn_code_point i.ipv6_tclass tcb.ect_code_point) ∷ []
    else []

-- The tags of a packet of that many bytes.
unfoldable pub add_socket_tags : IpSettings → ℕ → Tcb → List Tag
add_socket_tags i size tcb =
    tos_tags i size tcb
    ++ tclass_tags i size tcb
    ++ (if i.is_manual_ttl then ip_ttl_tag i.ip_ttl ∷ [] else [])
    ++ (if i.is_manual_hop_limit then ipv6_hop_limit_tag i.ipv6_hop_limit ∷ [] else [])
    ++ (if not (i.priority == 0) then priority_tag i.priority ∷ [] else [])
