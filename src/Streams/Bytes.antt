-- ===== src/Streams/Bytes.antt =====
-- tcp_stream_reassembly.py: where the bytes of a reassembled stream come from.
use mathlib.Core.Path.{subst}
use night_recon.Prelude.{
  All, All-sorted, Bool-cases, List, [], arith, drop, false, get_elem?, inl, inr, leb, length,
  length-append, length-take, ltb, ok, refl, some, sorted, suc, sym, take, zero, ℕ, ◌++◌, ◌+◌, ◌-◌,
  ◌∷◌, ◌≡◌, ◌≤◌, ◌⊎◌,
}
use night_recon.Streams.{
  Assembly, Round, TcpSegment, add_segment, assemble, breaks, extend, first_sequence, goes_on,
  in_order, is_empty, reassemble_tcp_segments,
}

get_elem?-append :
    {A : Type 0} (xs ys : List A) (k : ℕ) (b : A)
    → get_elem? (xs ++ ys) k ≡ some b
    → (get_elem? xs k ≡ some b) ⊎ ((j : ℕ) × (k ≡ length xs + j) × (get_elem? ys j ≡ some b))
get_elem?-append [] ys k b h = inr (k, omega arith, h)
get_elem?-append (x ∷ xs) ys zero b h = inl h
get_elem?-append (x ∷ xs) ys (suc k) b h = elim (get_elem?-append xs ys k b h) [
  | inl p ↦ inl p
  | inr (j, e, p) ↦ inr (j, omega (arith, e), p)
]

get_elem?-drop :
    {A : Type 0} (n : ℕ) (xs : List A) (k m : ℕ) (b : A)
    → m ≡ n + k
    → get_elem? (drop n xs) k ≡ some b
    → get_elem? xs m ≡ some b
get_elem?-drop zero xs k m b e h = ground (arith, e, h)
get_elem?-drop (suc n) [] k m b e h = absurd (cc)
get_elem?-drop (suc n) (x ∷ xs) k zero b e h = absurd (omega (arith, e))
get_elem?-drop (suc n) (x ∷ xs) k (suc m) b e h = get_elem?-drop n xs k m b (omega (arith, e)) h

get_elem?-take :
    {A : Type 0} (n : ℕ) (xs : List A) (k : ℕ) (b : A)
    → get_elem? (take n xs) k ≡ some b
    → get_elem? xs k ≡ some b
get_elem?-take zero xs k b h = absurd (cc)
get_elem?-take (suc n) [] k b h = h
get_elem?-take (suc n) (x ∷ xs) zero b h = h
get_elem?-take (suc n) (x ∷ xs) (suc k) b h = get_elem?-take n xs k b h

-- A byte at a place of the stream is the byte that a segment carries for that place.
pub record Carried (Q : TcpSegment → Type 0) (base k b : ℕ) : Type 0 where
  pub segment : TcpSegment
  pub among : Q segment
  pub starts : segment.sequence ≤ base + k
  pub carries : get_elem? segment.payload (base + k - segment.sequence) ≡ some b

pub record Good (Q : TcpSegment → Type 0) (base max_bytes : ℕ) (s : Assembly) : Type 0 where
  pub within : length s.raw ≤ max_bytes
  pub carried : (k b : ℕ) → get_elem? s.raw k ≡ some b → Carried Q base k b

abbrev assembly_of : Round → Assembly
assembly_of (goes_on s) = s
assembly_of (breaks s) = s

Round-cases : (r : Round) → ((s : Assembly) × (r ≡ goes_on s)) ⊎ ((s : Assembly) × (r ≡ breaks s))
Round-cases (goes_on s) = inl (s, refl)
Round-cases (breaks s) = inr (s, refl)

module _ (Q : TcpSegment → Type 0) (base max_bytes : ℕ) where
  extended-Carried :
      (g : TcpSegment) (raw part : List ℕ)
      → Q g
      → base ≤ g.sequence
      → g.sequence ≤ base + length raw
      → ((k b : ℕ) → get_elem? raw k ≡ some b → Carried Q base k b)
      → ((j b : ℕ)
          → get_elem? part j ≡ some b
          → get_elem? (drop (length raw - (g.sequence - base)) g.payload) j ≡ some b)
      → (k b : ℕ) → get_elem? (raw ++ part) k ≡ some b
      → Carried Q base k b
  extended-Carried g raw part q l m c p k b h = elim (get_elem?-append raw part k b h) [
    | inl i ↦ c k b i
    | inr (j, e, i) ↦ record {
      segment = g;
      among = q;
      starts = omega (arith, e, m);
      carries =
          get_elem?-drop (length raw - (g.sequence - base)) g.payload j (base + k - g.sequence) b
            (omega (arith, e, l, m)) (p j b i);
    }
  ]

  extend-Good :
      (g : TcpSegment) (s : Assembly)
      → Q g
      → base ≤ g.sequence
      → g.sequence ≤ base + length s.raw
      → Good Q base max_bytes s
      → Good Q base max_bytes
          (assembly_of (extend max_bytes g (drop (length s.raw - (g.sequence - base)) g.payload) s))
  unfolding extend
  extend-Good g s q l m good =
      let fresh : List ℕ = drop (length s.raw - (g.sequence - base)) g.payload in
      let remaining : ℕ = max_bytes - length s.raw in
      elim (Bool-cases (is_empty fresh)) [
        | inl a ↦ rw a (record { within = good.within; carried = good.carried })
        | inr a ↦ elim (Bool-cases (leb remaining 0)) [
          | inl b ↦ rw a (rw b (record { within = good.within; carried = good.carried }))
          | inr b ↦ elim (Bool-cases (ltb remaining (length fresh))) [
            | inl c ↦ rw a (
                rw b (
                  rw c (record {
                    within = ground (
                      arith,
                      length-append s.raw (take remaining fresh),
                      c,
                      b,
                      length-take remaining fresh (ground (arith, c)),
                      good.within,
                    );
                    carried =
                        extended-Carried g s.raw (take remaining fresh) q l m good.carried
                          (λ j x. get_elem?-take remaining fresh j x);
                  })))
            | inr c ↦ rw a (
                rw b (
                  rw c (record {
                    within = ground (arith, length-append s.raw fresh, c, b, good.within);
                    carried = extended-Carried g s.raw fresh q l m good.carried (λ j x h. h);
                  })))
          ]
        ]
      ]

  add_segment-Good :
      (g : TcpSegment) (s : Assembly)
      → Q g
      → Good Q base max_bytes s
      → Good Q base max_bytes (assembly_of (add_segment base max_bytes g s))
  unfolding add_segment
  add_segment-Good g s q good = elim (Bool-cases (is_empty g.payload)) [
    | inl a ↦ rw a good
    | inr a ↦ elim (Bool-cases (ltb (base + length s.raw) g.sequence)) [
      | inl b ↦ rw a (rw b (record { within = good.within; carried = good.carried }))
      | inr b ↦ elim (Bool-cases (ltb g.sequence base)) [
        | inl c ↦ rw a (rw b (rw c good))
        | inr c ↦
            rw a (rw b (rw c (extend-Good g s q (ground (arith, c)) (ground (arith, b)) good)))
      ]
    ]
  ]

  assemble-goes_on :
      (g : TcpSegment) (gs : List TcpSegment) (s t : Assembly)
      → add_segment base max_bytes g s ≡ goes_on t
      → assemble base max_bytes (g ∷ gs) s ≡ assemble base max_bytes gs t
  unfolding assemble
  assemble-goes_on g gs s t e = ground (arith, e)

  assemble-breaks :
      (g : TcpSegment) (gs : List TcpSegment) (s t : Assembly)
      → add_segment base max_bytes g s ≡ breaks t
      → assemble base max_bytes (g ∷ gs) s ≡ t
  unfolding assemble
  assemble-breaks g gs s t e = ground (arith, e)

  assemble-Good :
      (gs : List TcpSegment) (s : Assembly)
      → All Q gs
      → Good Q base max_bytes s
      → Good Q base max_bytes (assemble base max_bytes gs s)
  unfolding assemble
  assemble-Good [] s q good = good
  assemble-Good (g ∷ gs) s q good =
      let one = add_segment-Good g s q.0 good in
      elim (Round-cases (add_segment base max_bytes g s)) [
        | inl (t, e) ↦
            subst (Good Q base max_bytes) (sym (assemble-goes_on g gs s t e))
              (assemble-Good gs t q.1 (subst (λ r. Good Q base max_bytes (assembly_of r)) e one))
        | inr (t, e) ↦
            subst (Good Q base max_bytes) (sym (assemble-breaks g gs s t e))
              (subst (λ r. Good Q base max_bytes (assembly_of r)) e one)
      ]

-- A stream that is reassembled has at most `max_bytes` bytes, and each of its bytes, at a place
-- counted from the lowest sequence number, is the byte that one of the segments carries for that
-- place: whatever holds of all segments holds of that one.
pub reassemble-Good :
    (Q : TcpSegment → Type 0) (segments : List TcpSegment) (max_bytes : ℕ) (s : Assembly)
    → All Q segments
    → reassemble_tcp_segments segments max_bytes ≡ ok s
    → Good Q (first_sequence (sorted in_order segments)) max_bytes s
unfolding reassemble_tcp_segments
reassemble-Good Q segments max_bytes s q h =
    let ordered : List TcpSegment = sorted in_order segments in
    let empty : Assembly = record {
      raw = [];
      packet_ids = [];
      truncated = false;
      gaps_detected = false;
    } in
    let good =
      assemble-Good Q (first_sequence ordered) max_bytes ordered empty
        (All-sorted in_order Q segments q)
        (record { within = omega arith; carried = λ k b e. absurd (cc) }) in
    let same : s.raw ≡ (assemble (first_sequence ordered) max_bytes ordered empty).raw =
      ground (arith, h) in
    record {
      within = ground (arith, same, good.within);
      carried = λ k b e. good.carried k b (ground (arith, same, e));
    }
