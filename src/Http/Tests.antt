-- ===== src/Http/Tests.antt =====
-- Runs of the response reader and of the request writer, and their theorems at such inputs.
use miniosv_apps.Prelude.{◌≤◌, ◌≡◌, refl, ◌↔◌, true, List, [], ◌∷◌, arith, min, length, take, Bytes}
use miniosv_apps.Http.{
  fresh_tally, StatusCounters, next_hdr_state, count_status, count_byte, note_status, count_header,
  count_body, count_records, codes, request_pieces, build_range_request,
}
use miniosv_apps.Http.Counting.{stream, count_records-stream, count_records-body_of}
use miniosv_apps.Http.Status.{count_records-status}
use miniosv_apps.Http.Request.{build_range_request-take}

abbrev no_bad : StatusCounters
no_bad = record { bad_status = 0; first_bad_status = 0 }

-- A response whose CRLFCRLF is cut between two records, with three bytes behind it.
abbrev head_line : Bytes
head_line = codes "HTTP/1.1 403"

abbrev records : List Bytes
records = codes "HTTP/1.1 403 No\r\n\r" ∷ codes "\nab" ∷ codes "c" ∷ []

counts :
    ((count_records fresh_tally no_bad records).0.bytes ≡ 3)
    × ((count_records fresh_tally no_bad records).0.status ≡ 403)
    × ((count_records fresh_tally no_bad records).1.bad_status ≡ 1)
unfolding count_records count_body count_header count_byte count_status next_hdr_state note_status
counts = (refl, refl, refl)

count_records-stream_example :
    count_records fresh_tally no_bad records ≡ count_body fresh_tally no_bad (stream records)
count_records-stream_example = count_records-stream records fresh_tally no_bad (omega arith)

count_records-body_of_example :
    let t = (count_records fresh_tally no_bad records).0 in (t.headers_done ≡ true) × (t.bytes ≡ 3)
count_records-body_of_example = count_records-body_of records no_bad (omega arith)

count_records-status_example :
    let (t', g') = count_records fresh_tally no_bad records in
    (t'.status ≡ 403) × (g'.bad_status ≡ 1) × (g'.first_bad_status ≡ 403)
count_records-status_example =
    count_records-status records no_bad (codes "HTTP/1.1 ") b'4' b'0' b'3' (codes " No\r\n\r\nabc")
      refl refl (refl, (refl, (refl, tt))) refl

abbrev host : Bytes
host = codes "b.s3.r.amazonaws.com"

build_range_request-take_example :
    let text = stream (request_pieces host 0 67108863) in
    (build_range_request host 384 0 67108863 ≡ take 384 text)
    × (length (build_range_request host 384 0 67108863) ≡ min 384 (length text))
    × ((build_range_request host 384 0 67108863 ≡ text) ↔ (length text ≤ 384))
build_range_request-take_example = build_range_request-take host 384 0 67108863
