-- ===== src/Worker/Tests.antt =====
-- Two workers with one connection each.
use miniosv_apps.Prelude.{
  ℕ, ◌*◌, ◌<◌, ◌≡◌, refl, ◌↔◌, arith, true, false, Option, none, some, List, [], ◌∷◌, ◌++◌, map,
  length,
}
use miniosv_apps.Http.{codes}
use miniosv_apps.Plan.{Request}
use miniosv_apps.Report.{verdict}
use miniosv_apps.Report.Complete.{is_complete, BytesMatch}
use miniosv_apps.Conn.{
  syn_sent, established, close_wait, Answers, Conn, Counters, settle, syn_timed_out, give_up,
  conn_step,
}
use miniosv_apps.Worker.{new_conn, step_all, run_rounds, stored}
use miniosv_apps.Worker.Carried.{EndsCarried, run_rounds-EndsCarried}
use miniosv_apps.Worker.Shared.{
  Turn, working, ended, begin, turn, Moves, this, other, Reach, at_start, later,
}
use miniosv_apps.Worker.Interleaved.{CountsShared, reach-CountsShared}
use miniosv_apps.Worker.Ends.{IsSilent, has_ended, run_rounds_silent}
use miniosv_apps.Worker.Complete.{AllWorkers, AllClosed, verdict-AllClosed}

abbrev a_request : Request
a_request = record {
  src_port = 49152;
  start = 0;
  end_inclusive = 63;
  text = codes "GET";
  expected = 64;
}

abbrev opened : Conn
opened = record {
  has_tls = false;
  incoming = [];
  outgoing = [];
  request = codes "GET";
  request_queued = false;
  handshake_done = false;
  tally = record { bytes = 0; headers_done = false; hdr_state = 0; status = 0; status_pos = 0 };
  done = false;
  connect_start_ms = 5;
  queue_id = 0;
  src_port = 49152;
  expected = 64;
  closed_cleanly = false;
  attempts = 1;
  settled = false;
  start_ms = 6;
}

opens : new_conn true 0 5 6 a_request ≡ opened
unfolding new_conn
opens = refl

abbrev counters : Counters
counters = record {
  conns_established = 0;
  conns_failed = 0;
  syn_retries = 0;
  setup_ms_total = 0;
  http = record { bad_status = 0; first_bad_status = 0 };
}

-- No answer to the SYN by this time.
abbrev silent_at : ℕ → ℕ → Answers
silent_at ms i = record {
  now_ms = ms;
  state = syn_sent;
  may_send = false;
  can_send = false;
  send_slice = none;
  recvs = [];
  tls = [];
  state_after = syn_sent;
  can_recv_after = false;
}

silent_at-IsSilent : IsSilent 5 (silent_at 5006)
silent_at-IsSilent i = (refl, omega arith)

run_rounds_silent_example :
    has_ended (
      run_rounds true false
        ((silent_at 20 ∷ []) ++ (silent_at 5006 ∷ silent_at 5007 ∷ []))
        (opened ∷ opened ∷ [])
        counters)
    ≡ true
run_rounds_silent_example =
    run_rounds_silent true false 5 (silent_at 20 ∷ []) (silent_at 5006) (silent_at 5007 ∷ [])
      (opened ∷ opened ∷ []) counters silent_at-IsSilent (omega arith, (omega arith, tt))

-- The request goes out whole, and a response comes with the close, in two pieces.
abbrev answering : ℕ → Answers
answering i = record {
  now_ms = 30;
  state = established;
  may_send = true;
  can_send = true;
  send_slice = some 3;
  recvs = some (codes "HTTP/1.1 206 P\r\n\r") ∷ some (codes "\nabcd") ∷ none ∷ [];
  tls = [];
  state_after = close_wait;
  can_recv_after = false;
}

run_rounds-EndsCarried_example :
    let rounds = silent_at 20 ∷ answering ∷ [] in
    EndsCarried true false rounds
      (opened ∷ opened ∷ [])
      (run_rounds true false rounds (opened ∷ opened ∷ []) counters)
run_rounds-EndsCarried_example =
    run_rounds-EndsCarried true false (silent_at 20 ∷ answering ∷ []) (opened ∷ opened ∷ [])
      counters ((refl, refl, refl, refl, refl, refl), ((refl, refl, refl, refl, refl, refl), tt))

abbrev failures : Option (List Conn × Counters) → ℕ
failures none = 0
failures (some (_, g)) = g.conns_failed

both_fail :
    failures (run_rounds true false (silent_at 5006 ∷ []) (opened ∷ opened ∷ []) counters) ≡ 2
unfolding run_rounds step_all conn_step settle syn_timed_out give_up
both_fail = refl

-- Two workers with one silent connection each, which move in turns.
abbrev a_start : Turn
a_start = begin (silent_at 5006 ∷ []) (opened ∷ [])

abbrev starts : List Turn
starts = a_start ∷ a_start ∷ []

abbrev given_up : Conn
given_up = record opened { settled = true; done = true }

abbrev failed : ℕ → Counters
failed n = record counters { conns_failed = n; setup_ms_total = n * 5000 }

abbrev stepped : Turn
stepped = working (given_up ∷ []) true 1 [] (silent_at 5006 ∷ [])

first_move : Moves true false starts counters (stepped ∷ a_start ∷ []) (failed 1)
unfolding turn conn_step settle syn_timed_out give_up
first_move = this refl

second_move :
    Moves true false (stepped ∷ a_start ∷ []) (failed 1) (stepped ∷ stepped ∷ []) (failed 2)
unfolding turn conn_step settle syn_timed_out give_up
second_move = other (this refl)

third_move :
    Moves true false
      (stepped ∷ stepped ∷ [])
      (failed 2)
      (stepped ∷ ended (given_up ∷ []) ∷ [])
      (failed 2)
unfolding turn
third_move = other (this refl)

reached : Reach true false starts counters 3 (stepped ∷ ended (given_up ∷ []) ∷ []) (failed 2)
reached = later (later (later at_start first_move) second_move) third_move

reach-CountsShared_example :
    CountsShared starts counters (stepped ∷ ended (given_up ∷ []) ∷ []) (failed 2)
reach-CountsShared_example =
    reach-CountsShared true false starts counters 3 (stepped ∷ ended (given_up ∷ []) ∷ [])
      (failed 2) (omega arith) reached

abbrev closed_conn : Conn
closed_conn = record opened {
  tally = record { bytes = 64; headers_done = true; hdr_state = 4; status = 206; status_pos = 12 };
  done = true;
  closed_cleanly = true;
}

verdict-AllClosed_example :
    let workers = (closed_conn ∷ []) ∷ (closed_conn ∷ []) ∷ [] in
    (is_complete (verdict false 1 0 (map stored workers)) ≡ true) ↔ (
      AllWorkers (AllClosed 1) workers
      × (0 < length workers * 1)
      × BytesMatch false 128 128
      × ◌≡◌ {A = ℕ} 0 0)
verdict-AllClosed_example =
    verdict-AllClosed false 1 0 ((closed_conn ∷ []) ∷ (closed_conn ∷ []) ∷ [])
      (omega arith, (omega arith, tt)) (omega arith)
