-- ===== src/Automation/Queue/Integrity.antt =====
-- tools/task_automation/queue.py: a call leaves a history that `_read` accepts again.
use mathlib.Core.Path.{subst}
use night_recon.Prelude.{
  List, Option, Option-cases, Result-cases, String, [], any, arith, bool_Eq, eq_of_beq, false, get,
  get-put_self, inl, inr, insort, length, length-append, list_Eq, nat_Eq, none, ok, option_Eq,
  pair_Eq, put, refl, some, string_Eq, sym, ℕ, ◌++◌, ◌+◌, ◌<◌, ◌==◌, ◌∷◌, ◌≡◌, ◌≤◌,
}
use night_recon.Automation.Queue.Objectives.{Objective}
use night_recon.Automation.Queue.Tables.{
  Entry, Queue, Trust, check_entries, entries_of, entry_for, first_mac, mac_of, newer, read, write,
}

final_mac : String → List Entry → String
final_mac previous [] = previous
final_mac previous (e ∷ es) = final_mac e.mac es

last_entry : Option Entry → List Entry → Option Entry
last_entry last [] = last
last_entry last (e ∷ es) = last_entry (some e) es

last_entry-mac :
    (e x : Entry) (es : List Entry) → last_entry (some e) es ≡ some x → x.mac ≡ final_mac e.mac es
unfolding last_entry final_mac
last_entry-mac e x [] h = ground (arith, h)
last_entry-mac e x (y ∷ ys) h = last_entry-mac y x ys h

module _ (t : Trust) (id : String) where
  check_entries-last :
      (k : ℕ) (p : String) (last l : Option Entry) (es : List Entry)
      → check_entries t id k p last es ≡ ok l
      → l ≡ last_entry last es
  unfolding check_entries last_entry
  check_entries-last k p last l [] h = ground (arith, h)
  check_entries-last k p last l (e ∷ es) h =
      check_entries-last (k + 1) e.mac (some e) l es (ground (arith, h))

  check_entries-head :
      (k : ℕ) (p : String) (last l : Option Entry) (e : Entry) (es : List Entry)
      → check_entries t id k p last (e ∷ es) ≡ ok l
      → (e.version ≡ k) × (check_entries t id (k + 1) e.mac (some e) es ≡ ok l)
  unfolding check_entries
  check_entries-head k p last l e es h = (ground (arith, h), ground (arith, h))

  insort-last :
      (k : ℕ) (p : String) (last l : Option Entry) (es : List Entry) (n : Entry)
      → check_entries t id k p last es ≡ ok l
      → n.version ≡ k + length es
      → insort newer n es ≡ es ++ n ∷ []
  unfolding insort
  insort-last k p last l [] n h v = refl
  insort-last k p last l (e ∷ es) n h v =
      let (ve, rest) = check_entries-head k p last l e es h in
      ground (arith, v, ve, insort-last (k + 1) e.mac (some e) l es n rest)

  no_version :
      (k m : ℕ) (p : String) (last l : Option Entry) (es : List Entry)
      → check_entries t id k p last es ≡ ok l
      → k + length es ≤ m
      → any (λ (e : Entry). e.version == m) es ≡ false
  unfolding any
  no_version k m p last l [] h v = refl
  no_version k m p last l (e ∷ es) h v =
      let (ve, rest) = check_entries-head k p last l e es h in
      ground (arith, v, ve, no_version (k + 1) m e.mac (some e) l es rest)

  check_entries-snoc :
      (k : ℕ) (p : String) (last l : Option Entry) (es : List Entry) (n : Entry)
      → check_entries t id k p last es ≡ ok l
      → n.version ≡ k + length es
      → n.previous_mac ≡ final_mac p es
      → t.mac id n.version n.event (t.canonical n.after) n.previous_mac ≡ n.mac
      → check_entries t id k p last (es ++ n ∷ []) ≡ ok (some n)
  unfolding check_entries final_mac
  check_entries-snoc k p last l [] n h v q m = ground (
    arith,
    v,
    q,
    m,
    string_Eq.equal_iff n.previous_mac p,
    string_Eq.equal_iff (t.mac id n.version n.event (t.canonical n.after) p) n.mac,
  )
  check_entries-snoc k p last l (e ∷ es) n h v q m =
      let (ve, rest) = check_entries-head k p last l e es h in
      ground
        (arith, h, check_entries-snoc (k + 1) e.mac (some e) l es n rest (omega (arith, v)) q m)

  -- what a successful `_read` shows of the tables
  pub record Intact (s : Queue) (r : Objective) : Type 0 where
    pub mac : String
    pub found : get id s.objectives ≡ some (r, mac)
    pub last : Entry
    pub checked : check_entries t id 0 first_mac none (entries_of id s) ≡ ok (some last)
    pub agreed : mac ≡ last.mac
    pub current : r.version + 1 ≡ length (entries_of id s)

  pub read-Intact : (s : Queue) (r : Objective) → read t id s ≡ ok r → Intact s r
  unfolding read
  read-Intact s r h = elim (Option-cases (get id s.objectives)) [
    | inl n ↦ absurd (ground (arith, n, h))
    | inr ((q, m), f) ↦
        elim (Result-cases (check_entries t id 0 first_mac none (entries_of id s))) [
          | inr (x, c) ↦ absurd (ground (arith, f, c, h))
          | inl (none, c) ↦ absurd (ground (arith, f, c, h))
          | inl (some e, c) ↦ record {
            mac = m;
            found = ground (arith, f, c, h);
            last = e;
            checked = c;
            agreed = eq_of_beq m e.mac (ground (arith, f, c, h));
            current = ground (arith, f, c, h);
          }
        ]
  ]

  final_mac-last :
      (es : List Entry) (x : Entry)
      → check_entries t id 0 first_mac none es ≡ ok (some x)
      → x.mac ≡ final_mac first_mac es
  unfolding final_mac last_entry
  final_mac-last [] x h = absurd (ground (arith, check_entries-last 0 first_mac none (some x) [] h))
  final_mac-last (e ∷ es) x h =
      last_entry-mac e x es (sym (check_entries-last 0 first_mac none (some x) (e ∷ es) h))

  -- what `entry_for` makes
  entry_for-version :
      (q : Objective) (event m : String) → (entry_for t q event m).version ≡ q.version
  unfolding entry_for
  entry_for-version q event m = refl

  entry_for-previous : (q : Objective) (event m : String) → (entry_for t q event m).previous_mac ≡ m
  unfolding entry_for
  entry_for-previous q event m = refl

  entry_for-after : (q : Objective) (event m : String) → (entry_for t q event m).after ≡ q
  unfolding entry_for
  entry_for-after q event m = refl

  entry_for-mac :
      (q : Objective) (event m : String)
      → q.approval.objective_id ≡ id
      → t.mac id
          (entry_for t q event m).version
          (entry_for t q event m).event
          (t.canonical (entry_for t q event m).after)
          (entry_for t q event m).previous_mac
        ≡ (entry_for t q event m).mac
  unfolding entry_for
  entry_for-mac q event m own = ground (arith, own)

  write-shape :
      (s s' : Queue) (q : Objective) (event key : String)
      → q.approval.objective_id ≡ key
      → write t q event s ≡ ok s'
      → (s'.events
          ≡ put key (insort newer (entry_for t q event (mac_of key s)) (entries_of key s)) s.events)
        × (s'.objectives ≡ put key (q, (entry_for t q event (mac_of key s)).mac) s.objectives)
  unfolding write
  write-shape s s' q event key own h =
      subst
        (λ (k : String).
          (s'.events
            ≡ put k (insort newer (entry_for t q event (mac_of k s)) (entries_of k s)) s.events)
          × (s'.objectives ≡ put k (q, (entry_for t q event (mac_of k s)).mac) s.objectives))
        own (ground (arith, h), ground (arith, h))

  read-new :
      (s : Queue) (q : Objective) (n : Entry) (es : List Entry)
      → get id s.objectives ≡ some (q, n.mac)
      → get id s.events ≡ some (es ++ n ∷ [])
      → check_entries t id 0 first_mac none (es ++ n ∷ []) ≡ ok (some n)
      → q.version ≡ length es
      → length es < 2000
      → n.after ≡ q
      → read t id s ≡ ok q
  unfolding read
  read-new s q n es f g c v room a = ground (
    arith,
    f,
    g,
    c,
    v,
    a,
    length-append es (n ∷ []),
    string_Eq.equal_iff (t.canonical q) (t.canonical n.after),
    string_Eq.equal_iff n.mac n.mac,
  )

  pub write-read :
      (s s' : Queue) (r q : Objective) (event : String)
      → Intact s r
      → q.approval.objective_id ≡ id
      → q.version ≡ r.version + 1
      → length (entries_of id s) < 2000
      → write t q event s ≡ ok s'
      → read t id s' ≡ ok q
  write-read s s' r q event i own v room h =
      let es = entries_of id s in
      let n : Entry = entry_for t q event (mac_of id s) in
      let (e, o) = write-shape s s' q event id own h in
      let version : n.version ≡ 0 + length es =
        omega (arith, v, i.current, entry_for-version q event (mac_of id s)) in
      let inserted = insort-last 0 first_mac none (some i.last) es n i.checked version in
      let chained : n.previous_mac ≡ final_mac first_mac es = ground (
        arith,
        entry_for-previous q event (mac_of id s),
        i.found,
        i.agreed,
        final_mac-last es i.last i.checked,
      ) in
      let sealed : t.mac id n.version n.event (t.canonical n.after) n.previous_mac ≡ n.mac =
        entry_for-mac q event (mac_of id s) own in
      let checked =
        check_entries-snoc 0 first_mac none (some i.last) es n i.checked version chained sealed in
      read-new s' q n es (ground (arith, o, get-put_self id (q, n.mac) s.objectives))
        (ground (arith, e, inserted, get-put_self id (es ++ n ∷ []) s.events)) checked
        (omega (arith, v, i.current)) room (entry_for-after q event (mac_of id s))
