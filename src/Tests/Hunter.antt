-- ===== src/Tests/Hunter.antt =====
-- The packet hunter at concrete inputs.
use mathlib.Core.List.{Permᴰ}
use hut_karish.Prelude.{List, ℕ, ◌++◌, ◌/◌, ◌%◌, codes, map, Returns, ◌≡◌, refl, true, false, ◌∷◌}
use hut_karish.Hunter.Save.{digits, line_of_entry}
use hut_karish.Hunter.Threads.{
  run_threads, started, hunter_main, killed_in, receiver_step, loop_step,
}
use hut_karish.Hunter.Loop.{main_round}
use hut_karish.NetLink.Wire.{receive_packet_info, message_of}
use hut_karish.Queue.{pop, push}
use hut_karish.Hunter.PacketMap.{contains_packet, insert_packet_info, compare_packet_info}
use hut_karish.Hunter.Client.{send_port, receive_pid}
use hut_karish.Daemon.Pids.{receive_pid_bytes}
use hut_karish.Prelude.Assoc.{assign, find}
use hut_karish.Heap.{allocate}
use hut_karish.Packet.{is_stop}
use hut_karish.Exit.{returned}
use hut_karish.Prelude.Int.{pos}
use hut_karish.Hunter.Saved.{known, hunter_main-Saved}
use hut_karish.Tests.Endings.{client, whole_hunt}

digits_largest : digits 9 4294967295 ≡ codes "4294967295"
unfolding digits
digits_largest = refl

-- The four bytes of an address that is stored in network order on a little-endian machine.
abbrev dotted : ℕ → List ℕ
dotted ip =
    digits 9 (ip % 256)
    ++ b'.' ∷ digits 9 (ip / 256 % 256)
    ++ b'.' ∷ digits 9 (ip / 65536 % 256)
    ++ b'.' ∷ digits 9 (ip / 16777216)

both_left :
    (killed_in client whole_hunt started ≡ false)
    × ((run_threads client whole_hunt started).looping ≡ false)
    × ((run_threads client whole_hunt started).listening ≡ false)
unfolding killed_in run_threads receiver_step loop_step main_round receive_packet_info is_stop
    message_of pop push contains_packet send_port receive_pid receive_pid_bytes insert_packet_info
    assign find compare_packet_info allocate
both_left = (refl, refl, refl)

hunter_main-Saved_example : Returns (hunter_main dotted client true true whole_hunt b'y' true) (λ s.
    (s.0 ≡ returned (pos 0))
    × Permᴰ s.1
        (map (line_of_entry dotted) (known (run_threads client whole_hunt started).hunter.printed)))
hunter_main-Saved_example =
    hunter_main-Saved dotted client whole_hunt both_left.0 both_left.1 both_left.2
