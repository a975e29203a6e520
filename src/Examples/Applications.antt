-- ===== src/Examples/Applications.antt =====
-- An application on a socket, and the scripts of the simulations.
use cse_322_computer_network.Base.{◌*◌, ◌/◌, ◌≡◌, refl, arith, true, false, none, some, []}
use cse_322_computer_network.Socket.State.{Socket}
use cse_322_computer_network.Socket.Address.{inet}
use cse_322_computer_network.App.{
  AppSocket, Clock, MyApp, interval, run, start_application, stop_application,
}
use cse_322_computer_network.App.Schedule.{
  IsPaced, send_all, start_application-IsPaced, stop_application-stops,
}
use cse_322_computer_network.App.Tcp.{tcp_socket, IsCalling, start_application-IsCalling}
use cse_322_computer_network.Simulation.{task_b, task_a1, task_a2, rate}
use cse_322_computer_network.Simulation.Sinks.{
  all_served, chosen_first, tasks_served, task_a2-unserved,
}
use cse_322_computer_network.Scenario.{world, exact}
use cse_322_computer_network.Examples.Connections.{internet, idle, free_end}

abbrev clock : Clock
clock = record { double = exact; to_time = λ v. v.0 * 1000000000 / v.1 }

abbrev host : AppSocket
host = tcp_socket world (λ size. size) internet

-- Three packets of 1024 bytes at 3 Mbit/s.
abbrev app : MyApp host
app = record {
  now = 5000000000;
  socket = some idle;
  peer = inet 167772162 8080;
  packet_size = 1024;
  n_packets = 3;
  data_rate = 3000000;
  send_event = none;
  running = false;
  packets_sent = 0;
}

start_application-IsPaced_example :
    IsPaced clock 4 app (run clock 4 (start_application clock app)) idle
start_application-IsPaced_example =
    start_application-IsPaced clock 4 app idle refl refl (omega arith)

stop_application-stops_example :
    let a = record (run clock 1 (start_application clock app)) { now = 5004000000 } in
    let d = run clock 9 (stop_application a) in
    (d.socket
      ≡ some (
          host.close 5004000000 (
            send_all host 1024
              (interval clock app)
              2
              5000000000
              (host.connect 5000000000 (inet 167772162 8080) (host.bind 5000000000 idle)))))
    × (d.packets_sent ≡ 2)
    × (d.running ≡ false)
stop_application-stops_example =
    stop_application-stops clock 1 9 5004000000 app idle refl refl (omega arith)

start_application-IsCalling_example :
    (t : Socket world) × ((start_application clock app).socket ≡ some t)
    × IsCalling 167772162 8080 167772161 1024 free_end idle t
start_application-IsCalling_example =
    start_application-IsCalling clock (λ size. size) internet 167772162 8080 167772161 free_end idle
      app refl refl refl (omega arith) refl refl refl refl

task_a2-unserved_example :
    let a = task_a2 (λ i. i) 1024 5 in
    (all_served a a ≡ false) × (chosen_first a [] ≡ false) × (rate 10 1024 ≡ 0)
task_a2-unserved_example = task_a2-unserved (λ i. i) 1024 5 (omega arith) (omega arith)

tasks_served_example :
    let b = task_b (λ i. i) 1024 20 in
    let a = task_a1 (λ i. i) 1024 20 in
    (all_served b b ≡ true)
    × (all_served a a ≡ true)
    × (chosen_first b [] ≡ true)
    × (chosen_first a [] ≡ true)
tasks_served_example = tasks_served (λ i. i) 1024 20
