-- ===== src/Policy/Store/Guarantees.antt =====
-- `FileEngagementPolicyStore`: what holds after any history of calls, whatever their writes do.
use mathlib.Core.Path.{subst}
use night_recon.Prelude.{
  All-get, All-put, Bool, Bool-cases, List, Option-cases, Result-cases, String, [], all, arith,
  bool_Eq, eq_of_beq, eq_refl, get, get-put, inl, inr, list_Eq, nat_Eq, none, not, ok, option_Eq,
  pair_Eq, put, refl, some, string_Eq, sym, true, ◌+◌, ◌<◌, ◌==◌, ◌∙◌, ◌∷◌, ◌≡◌, ◌≤◌,
}
use night_recon.Policy.{Platform, Policy, post_init}
use night_recon.Policy.Store.{
  Command, PolicyStore, consume_action, find_policy, replace_checked, replace_policy, replaces,
  revoke, run, step,
}
use night_recon.Policy.Store.Changes.{
  Change, IsFiled, IsSound, Origin, fresh, post_init-eq-ok, replaced, same, spent, step-Change,
  withdrawn, wrote,
}

pub Change-IsSound : {c : Command} {s t : PolicyStore} → Change c s t → IsSound s → IsSound t
Change-IsSound (same e) i = rw e i
Change-IsSound {s = s} (wrote q e f b o) i =
    rw e (All-put IsFiled q.engagement_id q s.policies i (refl, b))

Change-saved :
    {c : Command} {s t : PolicyStore} → Change c s t → s.saved ≡ s.policies → t.saved ≡ t.policies
Change-saved (same e) h = rw e h
Change-saved (wrote q e f b o) h = f

-- A policy that stays in place: as far along, and revoked if it was.
pub record Follows (old new : Policy) : Type 0 where
  pub budget : new.max_actions ≡ old.max_actions
  pub used : old.actions_used ≤ new.actions_used
  pub revoked : old.revoked ≡ true → new.revoked ≡ true

Follows-refl : (q : Policy) → Follows q q
Follows-refl q = record { budget = refl; used = omega arith; revoked = λ r. r }

Follows-trans : (a b c : Policy) → Follows a b → Follows b c → Follows a c
Follows-trans a b c f g = record {
  budget = g.budget ∙ f.budget;
  used = omega (arith, f.used, g.used);
  revoked = λ r. g.revoked (f.revoked r);
}

-- A call of `replace_policy` on the engagement is no part of what keeps its policy.
abbrev pub spares : String → Command → Bool
spares id (replaces q) = not (q.engagement_id == id)
spares id c = true

Origin-Follows :
    (c : Command) (q old : Policy)
    → spares q.engagement_id c ≡ true
    → Origin c q (some old)
    → Follows old q
Origin-Follows c q old k (fresh h) = absurd (cc)
Origin-Follows c q old k (replaced x h e) = absurd (ground (arith, k, e, eq_refl q.engagement_id))
Origin-Follows c q old k (withdrawn x h e) = ground (arith, h, e)
Origin-Follows c q old k (spent x h r e) = ground (arith, h, e)

abbrev pub Keeps : String → Policy → PolicyStore → Type 0
Keeps id old t = (new : Policy) × (get id t.policies ≡ some new) × Follows old new

Change-Keeps :
    {c : Command} {s t : PolicyStore} (id : String) (old : Policy)
    → spares id c ≡ true
    → Change c s t
    → get id s.policies ≡ some old
    → Keeps id old t
Change-Keeps id old k (same e) h = (old, rw e h, Follows-refl old)
Change-Keeps {c} {s} {t} id old k (wrote q e f b o) h = elim (Bool-cases (q.engagement_id == id)) [
  | inl hit ↦
      let same_id = eq_of_beq q.engagement_id id hit in
      (
        q,
        ground (arith, e, hit, get-put q.engagement_id id q s.policies),
        Origin-Follows c q old (subst (λ i. spares i c ≡ true) (sym same_id) k)
            (subst (Origin c q) (ground (arith, same_id, h)) o),
      )
  | inr miss ↦
      (old, ground (arith, e, miss, h, get-put q.engagement_id id q s.policies), Follows-refl old)
]

module _ (p : Platform) where
  -- From a store whose policies are filed under their own engagements, within their budgets, and the
  -- same in the file, any history of calls, with any writes failing, leads to such a store again.
  pub run-IsSound :
      (s : PolicyStore) (cs : List (Bool × Command))
      → IsSound s
      → s.saved ≡ s.policies
      → IsSound (run p s cs) × ((run p s cs).saved ≡ (run p s cs).policies)
  unfolding run
  run-IsSound s [] i f = (i, f)
  run-IsSound s ((written, c) ∷ cs) i f =
      let change = step-Change p written c s i in
      run-IsSound (step p written c s).1 cs (Change-IsSound change i) (Change-saved change f)

  -- A policy that a sound store holds is never lost, never gets a larger or smaller budget, never
  -- gives back an action that it used, and once revoked stays revoked, whatever calls follow, if none
  -- of them is a `replace_policy` of that engagement's policy.
  pub run-Keeps :
      (s : PolicyStore) (cs : List (Bool × Command)) (id : String) (old : Policy)
      → IsSound s
      → all (λ (x : Bool × Command). spares id x.1) cs ≡ true
      → get id s.policies ≡ some old
      → Keeps id old (run p s cs)
  unfolding run all
  run-Keeps s [] id old i k h = (old, h, Follows-refl old)
  run-Keeps s ((written, c) ∷ cs) id old i k h =
      let change = step-Change p written c s i in
      let (mid, found, f) = Change-Keeps id old (ground (arith, k)) change h in
      let (new, found', g) =
        run-Keeps (step p written c s).1 cs id mid (Change-IsSound change i) (ground (arith, k))
          found in
      (new, found', Follows-trans old mid new f g)

  replace_checked-eq-ok :
      (written : Bool) (q r : Policy) (s : PolicyStore)
      → (replace_checked p written q s).0 ≡ ok r
      → (r ≡ q)
        × ((replace_checked p written q s).1.policies ≡ put q.engagement_id q s.policies)
        × ((replace_checked p written q s).1.saved ≡ put q.engagement_id q s.policies)
  unfolding replace_checked replace_policy
  replace_checked-eq-ok written q r s h = elim (Result-cases (post_init p q)) [
    | inr (x, b) ↦ absurd (ground (arith, b, h))
    | inl (u, b) ↦
        let eq = (post_init-eq-ok p q u b).0 in
        elim (Option-cases (get u.engagement_id s.policies)) [
          | inl n ↦ absurd (ground (arith, b, h, n))
          | inr (old, n) ↦ (
            ground (arith, b, h, n, eq),
            ground (arith, b, h, n, eq),
            ground (arith, b, h, n, eq),
          )
        ]
  ]

  -- An action that is consumed in a sound store was within the budget, and is counted once, in
  -- memory and in the file.
  pub consume_action-eq-ok :
      (written : Bool) (id : String) (s : PolicyStore) (q : Policy)
      → IsSound s
      → (consume_action p written id s).0 ≡ ok q
      → (old : Policy) × (get id s.policies ≡ some old)
        × (old.actions_used < old.max_actions)
        × (q ≡ record old { actions_used = old.actions_used + 1 })
        × ((consume_action p written id s).1.policies ≡ put id q s.policies)
        × ((consume_action p written id s).1.saved ≡ put id q s.policies)
  unfolding consume_action
  consume_action-eq-ok written id s q i h = elim (Result-cases (find_policy id s)) [
    | inr (x, b) ↦ absurd (ground (arith, b, h))
    | inl (none, b) ↦ absurd (ground (arith, b, h))
    | inl (some old, b) ↦
        let found : get id s.policies ≡ some old = ground (arith, b) in
        let filed = (All-get IsFiled id old s.policies i found).0 in
        let new : Policy = record old { actions_used = old.actions_used + 1 } in
        let (eq, memory, file) = replace_checked-eq-ok written new q s (ground (arith, b, h)) in
        (
          old,
          found,
          ground (arith, b, h),
          eq,
          ground (arith, b, h, filed, eq, memory),
          ground (arith, b, h, filed, eq, file),
        )
  ]

  -- A policy that was revoked is found so.
  pub revoke-eq-ok :
      (written : Bool) (id : String) (s : PolicyStore) (q : Policy)
      → IsSound s
      → (revoke p written id s).0 ≡ ok q
      → (get id (revoke p written id s).1.policies ≡ some q) × (q.revoked ≡ true)
  unfolding revoke
  revoke-eq-ok written id s q i h = elim (Result-cases (find_policy id s)) [
    | inr (x, b) ↦ absurd (ground (arith, b, h))
    | inl (none, b) ↦ absurd (ground (arith, b, h))
    | inl (some old, b) ↦
        let found : get id s.policies ≡ some old = ground (arith, b) in
        elim (Bool-cases old.revoked) [
          | inl r ↦ (ground (arith, b, h, r, found), ground (arith, b, h, r))
          | inr r ↦
              let filed = (All-get IsFiled id old s.policies i found).0 in
              let (eq, memory, file) =
                replace_checked-eq-ok written (record old { revoked = true }) q s
                  (ground (arith, b, h, r)) in
              (
                ground (arith, b, h, r, filed, eq, memory, get-put id id q s.policies, eq_refl id),
                ground (arith, eq),
              )
        ]
  ]
