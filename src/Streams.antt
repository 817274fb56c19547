-- ===== src/Streams.antt =====
-- packages/red-engine/nightrecon_red_engine/tcp_stream_reassembly.py.
pub mod Bytes
use night_recon.Prelude.{
  Bool, List, Result, String, [], bool_Eq, drop, false, if◌then◌else◌, leb, length, list_Eq, ltb,
  nat_Eq, nat_eq, not, ok, option_Eq, pair_Eq, require, select, sorted, str_leb, string_Eq, take,
  true, ℕ, ◌&&◌, ◌++◌, ◌+◌, ◌-◌, ◌==◌, ◌>>=◌, ◌>>◌, ◌||◌, ◌∷◌,
}

pub record TcpSegment : Type 0 where
  pub packet_id : String
  pub sequence : ℕ
  pub payload : List ℕ

pub data StreamError : Type 0 where
  no_segments : StreamError
  too_many_segments : StreamError
  bad_max_bytes : StreamError

-- The variables of the loop, which are what a ReassembledStream is made from.
pub record Assembly : Type 0 where
  pub raw : List ℕ
  pub packet_ids : List String
  pub truncated : Bool
  pub gaps_detected : Bool

-- The loop goes on with the next segment, or it breaks.
pub data Round : Type 0 where
  goes_on : Assembly → Round
  breaks : Assembly → Round

abbrev pub max_reassembled_stream_bytes : ℕ
max_reassembled_stream_bytes = 262144

abbrev pub max_stream_segments : ℕ
max_stream_segments = 4096

-- the order of the pairs of sequence and packet
unfoldable pub in_order : TcpSegment → TcpSegment → Bool
in_order a b =
    ltb a.sequence b.sequence || nat_eq a.sequence b.sequence && str_leb a.packet_id b.packet_id

-- `if not data`
unfoldable pub is_empty : List ℕ → Bool
is_empty [] = true
is_empty (b ∷ bs) = false

-- The part of the payload that is new, at the end of the buffer.
unfoldable pub extend : ℕ → TcpSegment → List ℕ → Assembly → Round
extend max_bytes segment fresh s =
    let remaining = max_bytes - length s.raw in
    let ids = s.packet_ids ++ segment.packet_id ∷ [] in
    if is_empty fresh
    then goes_on (record s { packet_ids = ids })
    else (if leb remaining 0
        then breaks (record s { truncated = true })
        else (if ltb remaining (length fresh)
            then breaks (record s {
              raw = s.raw ++ take remaining fresh;
              packet_ids = ids;
              truncated = true;
            })
            else goes_on (record s { raw = s.raw ++ fresh; packet_ids = ids })))

-- One round of the loop.
unfoldable pub add_segment : ℕ → ℕ → TcpSegment → Assembly → Round
add_segment base max_bytes segment s =
    if is_empty segment.payload
    then goes_on s
    else (if ltb (base + length s.raw) segment.sequence
        then breaks (record s { gaps_detected = true })
        else (if ltb segment.sequence base
            then goes_on s
            else extend max_bytes segment
                (drop (length s.raw - (segment.sequence - base)) segment.payload) s))

unfoldable pub assemble : ℕ → ℕ → List TcpSegment → Assembly → Assembly
assemble base max_bytes [] s = s
assemble base max_bytes (segment ∷ rest) s = elim (add_segment base max_bytes segment s) [
  | goes_on next ↦ assemble base max_bytes rest next
  | breaks last ↦ last
]

-- `dict.fromkeys`: the first of each
unfoldable pub fromkeys : List String → List String
fromkeys [] = []
fromkeys (x ∷ xs) = x ∷ select (λ y. not (y == x)) (fromkeys xs)

abbrev pub first_sequence : List TcpSegment → ℕ
first_sequence [] = 0
first_sequence (segment ∷ rest) = segment.sequence

unfoldable pub reassemble_tcp_segments : List TcpSegment → ℕ → Result StreamError Assembly
reassemble_tcp_segments segments max_bytes = do
  require (ltb 0 (length segments)) no_segments
  require (leb (length segments) max_stream_segments) too_many_segments
  require (leb 1 max_bytes && leb max_bytes max_reassembled_stream_bytes) bad_max_bytes
  let ordered = sorted in_order segments
  let empty : Assembly = record {
    raw = [];
    packet_ids = [];
    truncated = false;
    gaps_detected = false;
  }
  let s = assemble (first_sequence ordered) max_bytes ordered empty
  ok (record s { packet_ids = fromkeys s.packet_ids })
