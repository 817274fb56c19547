-- ===== src/Policy/Store/Changes.antt =====
-- `FileEngagementPolicyStore`: what one call can do to the policies.
use mathlib.Core.Path.{subst}
use night_recon.Prelude.{
  All, All-get, Bool, Bool-cases, Option, Option-cases, Result-cases, String, arith, bool_Eq,
  delete-put, get, inl, inr, leb, list_Eq, nat_Eq, none, ok, option_Eq, pair_Eq, put, put-get_self,
  refl, some, string_Eq, true, ◌+◌, ◌<◌, ◌≡◌, ◌≤◌,
}
use night_recon.Policy.{Platform, Policy, post_init}
use night_recon.Policy.Store.{
  Command, PolicyStore, consume_action, consumes, find_policy, replace_checked, replace_policy,
  replaces, revoke, revokes, set_policy, sets, step,
}

-- A policy as it is after a call, from what its engagement had before.
pub data Origin (c : Command) (q : Policy) (before : Option Policy) : Type 0 where
  fresh : before ≡ none → Origin c q before
  replaced : (old : Policy) → before ≡ some old → c ≡ replaces q → Origin c q before
  withdrawn :
      (old : Policy) → before ≡ some old → q ≡ record old { revoked = true } → Origin c q before
  spent :
      (old : Policy)
      → before ≡ some old
      → old.actions_used < old.max_actions
      → q ≡ record old { actions_used = old.actions_used + 1 }
      → Origin c q before

-- Nothing, or one policy written to both the memory and the file.
pub data Change (c : Command) (s t : PolicyStore) : Type 0 where
  same : t ≡ s → Change c s t
  wrote :
      (q : Policy)
      → t.policies ≡ put q.engagement_id q s.policies
      → t.saved ≡ t.policies
      → q.actions_used ≤ q.max_actions
      → Origin c q (get q.engagement_id s.policies)
      → Change c s t

-- Every policy is filed under its own engagement and has not used more than its budget.
abbrev pub IsFiled : String × Policy → Type 0
IsFiled (k, q) = (q.engagement_id ≡ k) × (q.actions_used ≤ q.max_actions)

abbrev pub IsSound : PolicyStore → Type 0
IsSound s = All IsFiled s.policies

replace_policy-Change :
    {c : Command} (written : Bool) (q old : Policy) (s : PolicyStore)
    → q.actions_used ≤ q.max_actions
    → get q.engagement_id s.policies ≡ some old
    → Origin c q (get q.engagement_id s.policies)
    → Change c s (replace_policy written q s).1
unfolding replace_policy
replace_policy-Change written q old s b g o = elim (Bool-cases written) [
  | inl w ↦ wrote q (ground (arith, g, w)) (ground (arith, g, w)) b o
  | inr w ↦ same (ground (arith, g, w, put-get_self q.engagement_id old q s.policies g))
]

set_policy-Change :
    {c : Command} (written : Bool) (q : Policy) (s : PolicyStore)
    → q.actions_used ≤ q.max_actions
    → Change c s (set_policy written q s).1
unfolding set_policy
set_policy-Change written q s b = elim (Option-cases (get q.engagement_id s.policies)) [
  | inr (old, g) ↦ same (ground (arith, g))
  | inl g ↦ elim (Bool-cases written) [
    | inl w ↦ wrote q (ground (arith, g, w)) (ground (arith, g, w)) b (fresh g)
    | inr w ↦ same (ground (arith, g, w, delete-put q.engagement_id q s.policies g))
  ]
]

module _ (p : Platform) where
  pub post_init-eq-ok :
      (q r : Policy) → post_init p q ≡ ok r → (r ≡ q) × (q.actions_used ≤ q.max_actions)
  unfolding post_init
  post_init-eq-ok q r h = (ground arith, ground arith)

  replace_checked-Change :
      {c : Command} (written : Bool) (q old : Policy) (s : PolicyStore)
      → get q.engagement_id s.policies ≡ some old
      → Origin c q (get q.engagement_id s.policies)
      → Change c s (replace_checked p written q s).1
  unfolding replace_checked
  replace_checked-Change {c} written q old s g o = elim (Result-cases (post_init p q)) [
    | inr (x, e) ↦ same (ground (arith, e))
    | inl (r, e) ↦
        let (eq, b) = post_init-eq-ok q r e in
        subst (Change c s) (ground (arith, e, eq)) (replace_policy-Change written q old s b g o)
  ]

  revoke-Change :
      {c : Command} (written : Bool) (id : String) (s : PolicyStore)
      → IsSound s
      → Change c s (revoke p written id s).1
  unfolding revoke
  revoke-Change {c} written id s i = elim (Result-cases (find_policy id s)) [
    | inr (x, b) ↦ same (ground (arith, b))
    | inl (none, b) ↦ same (ground (arith, b))
    | inl (some q, b) ↦
        let found : get id s.policies ≡ some q = ground (arith, b) in
        let filed = (All-get IsFiled id q s.policies i found).0 in
        elim (Bool-cases q.revoked) [
          | inl done ↦ same (ground (arith, b, done))
          | inr live ↦
              let new : Policy = record q { revoked = true } in
              let old_get : get new.engagement_id s.policies ≡ some q =
                ground (arith, filed, found) in
              subst (Change c s) (ground (arith, b, live))
                (replace_checked-Change written new q s old_get (withdrawn q old_get refl))
        ]
  ]

  consume_action-Change :
      {c : Command} (written : Bool) (id : String) (s : PolicyStore)
      → IsSound s
      → Change c s (consume_action p written id s).1
  unfolding consume_action
  consume_action-Change {c} written id s i = elim (Result-cases (find_policy id s)) [
    | inr (x, b) ↦ same (ground (arith, b))
    | inl (none, b) ↦ same (ground (arith, b))
    | inl (some q, b) ↦
        let found : get id s.policies ≡ some q = ground (arith, b) in
        let filed = (All-get IsFiled id q s.policies i found).0 in
        elim (Bool-cases (leb q.max_actions q.actions_used)) [
          | inl full ↦ same (ground (arith, b, full))
          | inr room ↦
              let new : Policy = record q { actions_used = q.actions_used + 1 } in
              let old_get : get new.engagement_id s.policies ≡ some q =
                ground (arith, filed, found) in
              subst (Change c s) (ground (arith, b, room)) (
                replace_checked-Change written new q s old_get
                  (spent q old_get (ground (arith, room)) refl))
        ]
  ]

  -- Every call changes nothing, or writes one policy: one that is new or takes the place of the
  -- engagement's own by the caller's wish, or the engagement's own one revoked or with one more
  -- action used.
  pub step-Change :
      (written : Bool) (c : Command) (s : PolicyStore)
      → IsSound s
      → Change c s (step p written c s).1
  unfolding step replace_policy
  step-Change written (replaces q) s i = elim (Result-cases (post_init p q)) [
    | inr (x, e) ↦ same (ground (arith, e))
    | inl (r, e) ↦
        let (eq, b) = post_init-eq-ok q r e in
        elim (Option-cases (get q.engagement_id s.policies)) [
          | inl n ↦ same (ground (arith, e, eq, n))
          | inr (old, n) ↦
              subst (Change (replaces q) s) (ground (arith, e, eq))
                (replace_policy-Change written q old s b n (replaced old n refl))
        ]
  ]
  step-Change written (sets q) s i = elim (Result-cases (post_init p q)) [
    | inr (x, e) ↦ same (ground (arith, e))
    | inl (r, e) ↦
        let (eq, b) = post_init-eq-ok q r e in
        subst (Change (sets q) s) (ground (arith, e, eq)) (set_policy-Change written q s b)
  ]
  step-Change written (revokes id) s i = revoke-Change written id s i
  step-Change written (consumes id) s i = consume_action-Change written id s i
