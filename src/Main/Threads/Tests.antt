-- ===== src/Main/Threads/Tests.antt =====
-- The small run of Thread/Sample, with two workers of the same answers at once.
use miniosv_apps.Prelude.{
  ℕ, ◌+◌, ◌≤◌, ◌≡◌, refl, sym, ap, subst, ◌∙◌, ◌⊎◌, true, false, List, [], ◌∷◌, decimal,
}
use miniosv_apps.Config.{
  conns_per_worker, object_size, block_size, stub_tls_after_handshake, plain_http,
}
use miniosv_apps.Rss.Chosen.{worker_ports}
use miniosv_apps.Http.{
  count_body, count_header, count_byte, count_status, next_hdr_state, note_status,
  build_range_request, write_all, request_pieces,
}
use miniosv_apps.Plan.{request, block_start, block_end, range_bytes, open_from, open_conns}
use miniosv_apps.Conn.{
  Conn, Counters, settle, syn_timed_out, queue_request, taken, drain_socket, stub_count,
  plain_count, finish, exchange, work, conn_step,
}
use miniosv_apps.Worker.{new_conn}
use miniosv_apps.Worker.Shared.{
  Turn, working, begin, turn, Moves, this, other, Reach, at_start, later,
}
use miniosv_apps.Worker.Rest.{moves_total, CanMove, all_ended}
use miniosv_apps.Thread.{start_conns}
use miniosv_apps.Thread.Sample.{
  env, steering, ctx, answers, counters, host, our_ip, fetched, sample_port, sample_ports,
}
use miniosv_apps.Main.{run_workers}
use miniosv_apps.Main.Threads.{opened_turn, worker_turn, worker_turns, any_order-run_workers}
use miniosv_apps.Main.Tests.{machine}

-- The connection before the loop.
abbrev dialled : ℕ → Conn
dialled port = record (fetched port) {
  request_queued = false;
  handshake_done = false;
  tally = record { bytes = 0; headers_done = false; hdr_state = 0; status = 0; status_pos = 0 };
  done = false;
  closed_cleanly = false;
  settled = false;
}

turn_behind : List ℕ → Turn
turn_behind ports =
    opened_turn env ctx answers (open_conns env host answers.connect answers.session 0 ports 0)

turn_behind_port : (port : ℕ) → turn_behind (port ∷ []) ≡ begin answers.rounds (dialled port ∷ [])
unfolding turn_behind open_conns open_from conns_per_worker object_size block_size plain_http
    request block_start block_end range_bytes start_conns new_conn
turn_behind_port port = refl

worker_turn-behind :
    worker_turn env steering host 0 ctx answers
    ≡ turn_behind (worker_ports env steering our_ip 0 (conns_per_worker env))
unfolding worker_turn turn_behind
worker_turn-behind = refl

-- Two workers of the same answers.
abbrev two : List Turn
two = worker_turns env steering machine (λ i. ctx) 2 0

a_turn :
    worker_turn env steering host 0 ctx answers ≡ begin answers.rounds (dialled sample_port ∷ [])
a_turn = worker_turn-behind ∙ ap turn_behind sample_ports ∙ turn_behind_port sample_port

two_turns :
    two
    ≡ begin answers.rounds (dialled sample_port ∷ [])
      ∷ begin answers.rounds (dialled sample_port ∷ [])
      ∷ []
unfolding worker_turns
two_turns = ap (λ t. t ∷ t ∷ []) a_turn

-- The second worker makes the first move.
abbrev moved : ℕ → List Turn
moved port =
    begin answers.rounds (dialled port ∷ [])
    ∷ working (fetched port ∷ []) true 1 [] answers.rounds
    ∷ []

abbrev counted : Counters
counted = record counters { conns_established = 1; setup_ms_total = 9 }

a_move :
    (port : ℕ)
    → Moves true false
        (begin answers.rounds (dialled port ∷ []) ∷ begin answers.rounds (dialled port ∷ []) ∷ [])
        counters
        (moved port)
        counted
unfolding turn conn_step settle syn_timed_out work exchange queue_request taken drain_socket
    stub_count plain_count finish count_body count_header count_byte count_status next_hdr_state
    note_status build_range_request write_all request_pieces decimal
a_move port = other (this refl)

reached : Reach true false two counters 1 (moved sample_port) counted
reached =
    subst (λ ts. Reach true false ts counters 1 (moved sample_port) counted) (sym two_turns)
      (later at_start (a_move sample_port))

any_order-run_workers_example :
    (1 + moves_total (moved sample_port) ≤ moves_total two)
    × (CanMove true false (moved sample_port) counted
        ⊎ (all_ended (moved sample_port) ≡ run_workers env steering machine (λ i. ctx) 2 0))
unfolding plain_http stub_tls_after_handshake
any_order-run_workers_example =
    any_order-run_workers env steering machine (λ i. ctx) 2 counters 1 (moved sample_port) counted
      reached
