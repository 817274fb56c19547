-- ===== src/Ledger/Reservations.antt =====
-- atomic_action_ledger.py: when an action gets its place, and that it gets it once.
use night_recon.Prelude.{
  List, Option, Option-cases, Result-cases, [], arith, bool_Eq, codes, contains, false, get, inl,
  inr, length, list_Eq, nat_Eq, none, ok, option_Eq, pair_Eq, refl, some, string_Eq, true, unique,
  unique-snoc, ℕ, ◌+◌, ◌<◌, ◌↔◌, ◌∷◌, ◌≡◌, ◌≢◌, ◌≤◌,
}
use night_recon.Ledger.{
  Ledger, LedgerCall, Limit, Reservation, Reserving, check_identity, limit_is_valid, reserve, run,
  step, tighten,
}
use night_recon.Ledger.Moves.{Move, limited, same, step-Move, taken, tighten-le}

-- What an action needs to get its place. The figures of the row and those of the policy, where it has
-- a limit, are compared each with each.
pub record CanReserve (r : Reserving) (l : Ledger) : Type 0 where
  pub engagement_named : r.engagement_id ≢ ""
  pub action_named : r.action_id ≢ ""
  pub action_short : length (codes r.action_id) ≤ 128
  pub allowed : r.policy_is_revoked ≡ false
  pub row : Limit
  pub found : get r.engagement_id l.limits ≡ some row
  pub live : row.revoked ≡ false
  pub new : contains (r.engagement_id, r.action_id) l.reservations ≡ false
  pub room : row.used < row.action_limit
  pub policy_room :
      (n : ℕ)
      → r.policy_limit ≡ some n
      → (row.used < n) × (r.policy_used < n) × (r.policy_used < row.action_limit)

check_identity-facts :
    (r : Reserving)
    → check_identity r ≡ ok tt
    → (r.engagement_id ≢ "")
      × (r.action_id ≢ "")
      × (length (codes r.action_id) ≤ 128)
      × (r.policy_is_revoked ≡ false)
unfolding check_identity limit_is_valid
check_identity-facts r h = (
  λ e. ground (arith, h, string_Eq.equal_iff r.engagement_id "", e),
  λ e. ground (arith, h, string_Eq.equal_iff r.action_id "", e),
  ground (arith, h),
  ground (arith, h),
)

check_identity-passes :
    (r : Reserving)
    → r.engagement_id ≢ ""
    → r.action_id ≢ ""
    → length (codes r.action_id) ≤ 128
    → r.policy_is_revoked ≡ false
    → limit_is_valid r.policy_limit ≡ true
    → check_identity r ≡ ok tt
unfolding check_identity
check_identity-passes r e a n v p = ground (
  arith,
  e,
  a,
  n,
  v,
  p,
  string_Eq.equal_iff r.engagement_id "",
  string_Eq.equal_iff r.action_id "",
)

-- The tightened row has room exactly if all four pairs of figures have it.
tighten-room :
    (o : Option ℕ) (u : ℕ) (row : Limit)
    → ((tighten o u row).used < (tighten o u row).action_limit) ↔ (
        (row.used < row.action_limit)
        × ((n : ℕ) → o ≡ some n → (row.used < n) × (u < n) × (u < row.action_limit)))
unfolding tighten
tighten-room none u row = (λ h. (h, λ n e. absurd (ground (arith, e))), λ h. h.0)
tighten-room (some m) u row = (
  λ h.
      (omega (arith, h), λ n e. (ground (arith, h, e), ground (arith, h, e), ground (arith, h, e))),
  λ (h, f). omega (arith, h, (f m refl).0, (f m refl).1, (f m refl).2),
)

room_valid :
    (o : Option ℕ) (u used : ℕ) → ((n : ℕ) → o ≡ some n → used < n) → limit_is_valid o ≡ true
unfolding limit_is_valid
room_valid none u used f = refl
room_valid (some n) u used f = ground (arith, f n refl)

CanReserve-sound :
    (r : Reserving) (l : Ledger) (x : Reservation) → (reserve r l).0 ≡ ok x → CanReserve r l
unfolding reserve
CanReserve-sound r l x h = elim (Result-cases (check_identity r)) [
  | inr (e, bad) ↦ absurd (ground (arith, bad, h))
  | inl (u, good) ↦ elim (Option-cases (get r.engagement_id l.limits)) [
    | inl n ↦ absurd (ground (arith, good, n, h))
    | inr (row, f) ↦
        let (engagement, action, short, allowed) = check_identity-facts r (ground (arith, good)) in
        let (room, policy_room) =
          (tighten-room r.policy_limit r.policy_used row).0 (ground (arith, good, f, h)) in
        record {
          engagement_named = engagement;
          action_named = action;
          action_short = short;
          allowed = allowed;
          row = row;
          found = f;
          live = ground (arith, good, f, h, (tighten-le r.policy_limit r.policy_used row).2);
          new = ground (arith, good, f, h);
          room = room;
          policy_room = policy_room;
        }
  ]
]

reserve_result : Reserving → Limit → Reservation
unfolding tighten
reserve_result r row =
    let t = tighten r.policy_limit r.policy_used row in
    record {
      engagement_id = r.engagement_id;
      action_id = r.action_id;
      used = t.used + 1;
      limit = t.action_limit;
    }

CanReserve-complete :
    (r : Reserving) (l : Ledger)
    → CanReserve r l
    → (x : Reservation) × ((reserve r l).0 ≡ ok x) × (x.used ≤ x.limit)
unfolding reserve reserve_result
CanReserve-complete r l c =
    let room = (tighten-room r.policy_limit r.policy_used c.row).1 (c.room, c.policy_room) in
    let valid : limit_is_valid r.policy_limit ≡ true =
      room_valid r.policy_limit r.policy_used c.row.used (λ n e. (c.policy_room n e).0) in
    let passed =
      check_identity-passes r c.engagement_named c.action_named c.action_short c.allowed valid in
    (
      reserve_result r c.row,
      ground (
        arith,
        passed,
        c.found,
        c.live,
        c.new,
        room,
        (tighten-le r.policy_limit r.policy_used c.row).2,
      ),
      ground (arith, room),
    )

-- `reserve` succeeds exactly if the engagement and the action are named, the action in at most 128
-- characters, the policy is not revoked, the engagement has a row that is not revoked, the action is
-- not reserved yet, and the use in the row is below the limit in the row and, where the policy has a
-- limit, the use in the row and the use of the policy are both below both limits; then the use that
-- it reports is within the limit that it reports.
pub reserve_iff :
    (r : Reserving) (l : Ledger)
    → ((x : Reservation) × ((reserve r l).0 ≡ ok x) × (x.used ≤ x.limit)) ↔ CanReserve r l
reserve_iff r l = (λ s. CanReserve-sound r l s.0 s.1, CanReserve-complete r l)

Move-unique :
    {l m : Ledger} → Move l m → unique l.reservations ≡ true → unique m.reservations ≡ true
Move-unique (same e) u = rw e u
Move-unique (limited i row e keeps) u = rw e u
Move-unique {l} (taken i a row old f live live' lim uses cap new e) u =
    rw e (unique-snoc (i, a) l.reservations u new)

-- Whatever calls are made, no action of an engagement is reserved twice.
pub run-unique :
    (l : Ledger) (cs : List LedgerCall)
    → unique l.reservations ≡ true
    → unique (run l cs).reservations ≡ true
unfolding run
run-unique l [] u = u
run-unique l (c ∷ cs) u = run-unique (step l c) cs (Move-unique (step-Move l c) u)
