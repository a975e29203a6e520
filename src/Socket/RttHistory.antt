-- ===== src/Socket/RttHistory.antt =====
-- The history of sent segments and the samples of the round trip: UpdateRttHistory and EstimateRtt of
-- NS3/1705069/TaskB/tcp-socket-base.cc.
use cse_322_computer_network.Base.{ℕ, ◌≡◌, refl, arith, List, [], ◌∷◌, ◌++◌, if◌then◌else◌}
use cse_322_computer_network.Sequence.{Sequence, gt}
use cse_322_computer_network.Net.{Net}
use cse_322_computer_network.Socket.State.{Socket, RttHistory}
use cse_322_computer_network.Socket.Receive.{drop_acked}

-- The segments of a history that are acknowledged whole, from the front.
abbrev pub acked_prefix : Sequence → ℕ → List RttHistory → List RttHistory
acked_prefix q ack [] = []
acked_prefix q ack (h ∷ hs) =
    if gt q (q.add h.seq h.count) ack then [] else h ∷ acked_prefix q ack hs

-- EstimateRtt takes the segments that are acknowledged whole from the front of the history and
-- leaves the rest as it was.
pub drop_acked-prefix :
    (q : Sequence) (ack : ℕ) (hs : List RttHistory)
    → acked_prefix q ack hs ++ drop_acked q ack hs ≡ hs
unfolding drop_acked
drop_acked-prefix q ack [] = refl
drop_acked-prefix q ack (h ∷ hs) = ground (arith, drop_acked-prefix q ack hs)
