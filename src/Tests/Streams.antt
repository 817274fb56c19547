-- ===== src/Tests/Streams.antt =====
-- tcp_stream_reassembly.py on a few segments.
use night_recon.Prelude.{
  List, [], arith, false, insort, length, ok, refl, select, sorted, true, ◌<◌, ◌∷◌, ◌≡◌,
}
use night_recon.Streams.{
  Assembly, TcpSegment, add_segment, assemble, extend, first_sequence, fromkeys, in_order, is_empty,
  reassemble_tcp_segments,
}
use night_recon.Streams.Bytes.{Good, reassemble-Good}

abbrev overlapping : List TcpSegment
overlapping =
    record { packet_id = "p2"; sequence = 12; payload = 3 ∷ 4 ∷ 5 ∷ [] }
    ∷ record { packet_id = "p1"; sequence = 10; payload = 1 ∷ 2 ∷ 3 ∷ [] }
    ∷ record { packet_id = "p3"; sequence = 20; payload = 9 ∷ [] }
    ∷ []

abbrev four_bytes : Assembly
four_bytes = record {
  raw = 1 ∷ 2 ∷ 3 ∷ 4 ∷ [];
  packet_ids = "p1" ∷ "p2" ∷ [];
  truncated = true;
  gaps_detected = false;
}

reassembled : reassemble_tcp_segments overlapping 4 ≡ ok four_bytes
unfolding reassemble_tcp_segments assemble add_segment extend is_empty in_order fromkeys sorted
    insort select
reassembled = refl

gap_found :
    reassemble_tcp_segments overlapping 100
    ≡ ok (record {
      raw = 1 ∷ 2 ∷ 3 ∷ 4 ∷ 5 ∷ [];
      packet_ids = "p1" ∷ "p2" ∷ [];
      truncated = false;
      gaps_detected = true;
    })
unfolding reassemble_tcp_segments assemble add_segment extend is_empty in_order fromkeys sorted
    insort select
gap_found = refl

reassemble-Good_example :
    Good (λ g. 0 < length g.payload) (first_sequence (sorted in_order overlapping)) 4 four_bytes
reassemble-Good_example =
    reassemble-Good (λ g. 0 < length g.payload) overlapping 4 four_bytes
      (omega arith, (omega arith, (omega arith, tt))) reassembled
