-- ===== src/Flow/Answering.antt =====
-- A round of the packet hunter while the daemon answers it.
use hut_karish.Prelude.{
  ℕ, ◌^◌, ◌<◌, ◌≡◌, refl, ap, sym, true, List, [], ◌∷◌, ◌++◌, append-nil, none, some, Bool-cases,
  inl, inr, arith,
}
use hut_karish.Prelude.Int.{ℤ}
use hut_karish.Heap.{Pckt}
use hut_karish.Scan.Ports.{PortMap}
use hut_karish.Daemon.PortToPidMap.{get_pid}
use hut_karish.Daemon.Clients.{reply, answer_rounds}
use hut_karish.Hunter.PacketMap.{contains_packet}
use hut_karish.Hunter.Client.{UnixSocketClient, wrote, is_server_alive, send_port, receive_pid}
use hut_karish.Hunter.Loop.{Hunter, End, goes_on, keep_packet, handle_packet}
use hut_karish.Flow.Query.{reads, query_answered}
use hut_karish.Flow.Joint.{
  bytes_of_answer, served, Joint, looping_with, IsDaemonMap, AnsweredBy, silent, printed_with,
}

-- What a round of the main loop makes of `h`: the loop goes on, and prints nothing, or a packet with
-- the answer of the daemon.
pub record Served (m : PortMap) (h : Hunter) (s : End × Hunter) : Type 0 where
  pub on : s.0 ≡ goes_on
  pub queue_kept : s.1.message_queue ≡ h.message_queue
  pub new : List (ℤ × Pckt)
  pub printed : s.1.printed ≡ h.printed ++ new
  pub by_daemon :
      (js : List Joint) (ps : List (ℤ × Pckt))
      → AnsweredBy js ps
      → AnsweredBy (looping_with m ∷ js) (new ++ ps)

module _ (c : UnixSocketClient) (connected : c.is_connected ≡ true) (m : PortMap)
    (real : IsDaemonMap m) where
  quiet : (h : Hunter) → Served m h (goes_on, h)
  quiet h = record {
    on = refl;
    queue_kept = refl;
    new = [];
    printed = sym (append-nil h.printed);
    by_daemon = λ js ps a. silent a;
  }

  -- The packet hunter reads an answer of the daemon, and prints the packet with it.
  kept-Served :
      (p : Pckt) (h : Hunter)
      → p.info.dst_port < 2 ^ 16
      → Served m h (
          keep_packet p
            (receive_pid c (
              bytes_of_answer
                (answer_rounds (reads (send_port c (wrote 2) p.info.dst_port).1 m ∷ []))))
            h)
  unfolding keep_packet
  kept-Served p h f =
      let (first, calls, since) = real in
      let (asked, read, fits) = query_answered first calls m c p.info.dst_port since connected f in
      rw (ap bytes_of_answer asked, read)
        (record {
          on = refl;
          queue_kept = refl;
          new = (reply (get_pid p.info.dst_port m), p) ∷ [];
          printed = refl;
          by_daemon = λ js ps a. printed_with refl fits a;
        })

  sent_whole : (port : ℕ) → (send_port c (wrote 2) port).0 ≡ true
  unfolding send_port
  sent_whole port = ground (arith, connected)

  pub handled-Served :
      (p : Pckt) (h : Hunter)
      → p.info.dst_port < 2 ^ 16
      → Served m h (handle_packet c (served m) (some p) h)
  unfolding handle_packet served
  handled-Served p h f = elim (Bool-cases (contains_packet p.info h.map)) [
    | inl e ↦ rw e (quiet h)
    | inr e ↦ rw (e, sent_whole p.info.dst_port) (kept-Served p h f)
  ]

  pub idle-Served : (h : Hunter) → Served m h (handle_packet c (served m) none h)
  unfolding handle_packet served is_server_alive
  idle-Served h = rw connected (quiet h)
