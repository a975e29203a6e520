-- ===== src/Socket/Counting.antt =====
-- Counting the segments that an acknowledgement covers (ProcessAck of
-- NS3/1705069/TaskB/tcp-socket-base.cc).
use cse_322_computer_network.Base.{ℕ, ◌+◌, ◌*◌, ◌/◌, ◌%◌, ◌≤◌, ◌<◌, ◌≡◌, arith}
use cse_322_computer_network.Socket.ProcessAck.{count_acked}

-- For a positive segment size, fewer bytes left over than a segment, and sizes below 2 ^ 32, the
-- counted segments and the bytes left over make up the acknowledged bytes and what was left
-- before, the counted bytes are those of the counted segments, and less than a segment is left
-- over.
pub count_acked-conserves :
    (bytes left seg : ℕ)
    → 0 < seg
    → left < seg
    → bytes + seg < 4294967296
    → let a = count_acked bytes left seg in
      (a.segs * seg + a.left ≡ bytes + left) × (a.bytes ≡ a.segs * seg) × (a.left < seg)
unfolding count_acked
count_acked-conserves bytes left seg pos less small =
    let d : bytes / seg * seg + bytes % seg ≡ bytes = grind arith in
    let m : bytes % seg < seg = grind arith in
    let n : (bytes / seg + 1) * seg ≡ bytes / seg * seg + seg = grind arith in
    let q : bytes / seg ≤ bytes = grind arith in ground (arith, d, m, n, q)
