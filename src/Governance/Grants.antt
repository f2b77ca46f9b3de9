-- ===== src/Governance/Grants.antt =====
-- governance.py: the choice of a grant in `resolve_grant`.
use mathlib.Core.Path.{subst}
use mathlib.Core.List.{Memᴰ}
use bastet_agent_os.Prelude.{
  ◌≤◌, String, ◌≡◌, ◌⊎◌, inl, inr, refl, sym, ap, Bool, true, false, not, none, some, List, [], ◌∷◌,
  ◌++◌, any, leb, arith, Bool-cases,
}
use bastet_agent_os.Governance.{Grant, Tables, serves, best, scopes_of, first_grant, resolve_grant}

-- `g` is a row that passes the test, and none that does has a higher priority.
pub record IsBest (p : Grant → Bool) (grants : List Grant) (g : Grant) : Type 0 where
  pub stored : Memᴰ g grants
  pub passes : p g ≡ true
  pub highest : (h : Grant) → Memᴰ h grants → p h ≡ true → h.priority ≤ g.priority

highest_tail :
    (p : Grant → Bool) (g : Grant) (grants : List Grant) (h : Grant) (w : IsBest p grants h)
    (e : p g ≡ false) (x : Grant)
    → Memᴰ x (g ∷ grants)
    → p x ≡ true
    → x.priority ≤ h.priority
highest_tail p g grants h w e x (Memᴰ.head i) q = let bad : ⊥ = cc (q, e, ap p i) in absurd bad
highest_tail p g grants h w e x (Memᴰ.tail m) q = w.highest x m q

any-mem :
    (p : Grant → Bool) (grants : List Grant) {x : Grant}
    → Memᴰ x grants
    → p x ≡ true
    → any p grants ≡ true
any-mem p [] m q = elim m [ ]
any-mem p (g ∷ grants) (Memᴰ.head i) q = ground (arith, q, ap p i)
any-mem p (g ∷ grants) (Memᴰ.tail m) q = ground (arith, any-mem p grants m q)

highest_only :
    (p : Grant → Bool) (g : Grant) (grants : List Grant) (a : any p grants ≡ false) (x : Grant)
    → Memᴰ x (g ∷ grants)
    → p x ≡ true
    → x.priority ≤ g.priority
highest_only p g grants a x (Memᴰ.head i) q =
    subst (λ y. y.priority ≤ g.priority) (sym i) (omega arith)
highest_only p g grants a x (Memᴰ.tail m) q =
    let bad : ⊥ = cc (a, any-mem p grants m q) in absurd bad

highest_head :
    (p : Grant → Bool) (g : Grant) (grants : List Grant) (h : Grant) (w : IsBest p grants h)
    (l : leb h.priority g.priority ≡ true) (x : Grant)
    → Memᴰ x (g ∷ grants)
    → p x ≡ true
    → x.priority ≤ g.priority
highest_head p g grants h w l x (Memᴰ.head i) q =
    subst (λ y. y.priority ≤ g.priority) (sym i) (omega arith)
highest_head p g grants h w l x (Memᴰ.tail m) q =
    let below = w.highest x m q in ground (arith, below, l)

highest_kept :
    (p : Grant → Bool) (g : Grant) (grants : List Grant) (h : Grant) (w : IsBest p grants h)
    (l : leb h.priority g.priority ≡ false) (x : Grant)
    → Memᴰ x (g ∷ grants)
    → p x ≡ true
    → x.priority ≤ h.priority
highest_kept p g grants h w l x (Memᴰ.head i) q =
    subst (λ y. y.priority ≤ h.priority) (sym i) (ground (arith, l))
highest_kept p g grants h w l x (Memᴰ.tail m) q = w.highest x m q

best-cases :
    (p : Grant → Bool) (grants : List Grant)
    → ((best p grants ≡ none) × (any p grants ≡ false))
      ⊎ ((g : Grant) × (best p grants ≡ some g) × IsBest p grants g)
unfolding best
best-cases p [] = inl (refl, refl)
best-cases p (g ∷ grants) = elim (Bool-cases (p g)) [
  | inr e ↦ elim (best-cases p grants) [
    | inl (b, a) ↦ inl (rw (best, e) b, rw (e) a)
    | inr (h, b, w) ↦ inr (
      h,
      rw (best, e) b,
      record {
        stored = Memᴰ.tail w.stored;
        passes = w.passes;
        highest = λ x m q. highest_tail p g grants h w e x m q;
      },
    )
  ]
  | inl e ↦ elim (best-cases p grants) [
    | inl (b, a) ↦ inr (
      g,
      rw (best, e, b) refl,
      record {
        stored = Memᴰ.head refl;
        passes = e;
        highest = λ x m q. highest_only p g grants a x m q;
      },
    )
    | inr (h, b, w) ↦ elim (Bool-cases (leb h.priority g.priority)) [
      | inl l ↦ inr (
        g,
        rw (best, e, b, l) refl,
        record {
          stored = Memᴰ.head refl;
          passes = e;
          highest = λ x m q. highest_head p g grants h w l x m q;
        },
      )
      | inr l ↦ inr (
        h,
        rw (best, e, b, l) refl,
        record {
          stored = Memᴰ.tail w.stored;
          passes = w.passes;
          highest = λ x m q. highest_kept p g grants h w l x m q;
        },
      )
    ]
  ]
]

-- No grant of one of these scopes is live.
abbrev pub no_grant : String → String → List (String × String) → List Grant → Bool
no_grant now resource_id scopes grants =
    not (any (λ s. any (serves now resource_id s.0 s.1) grants) scopes)

-- The scope that a grant was found under, with the scopes that were tried before.
pub record Found (now resource_id : String) (scopes : List (String × String)) (grants : List Grant)
    (g : Grant) : Type 0 where
  pub before : List (String × String)
  pub after : List (String × String)
  pub scope : String × String
  pub split : scopes ≡ before ++ scope ∷ after
  pub skipped : no_grant now resource_id before grants ≡ true
  pub chosen : IsBest (serves now resource_id scope.0 scope.1) grants g

first_grant-cases :
    (now resource_id : String) (scopes : List (String × String)) (grants : List Grant)
    → ((first_grant now resource_id scopes grants ≡ none)
        × (no_grant now resource_id scopes grants ≡ true))
      ⊎ ((g : Grant) × (first_grant now resource_id scopes grants ≡ some g)
          × Found now resource_id scopes grants g)
unfolding first_grant
first_grant-cases now resource_id [] grants = inl (refl, refl)
first_grant-cases now resource_id ((t, i) ∷ scopes) grants =
    elim (best-cases (serves now resource_id t i) grants) [
      | inr (g, b, w) ↦ inr (
        g,
        rw (first_grant, b) refl,
        record {
          before = [];
          after = scopes;
          scope = (t, i);
          split = refl;
          skipped = refl;
          chosen = w;
        },
      )
      | inl (b, a) ↦ elim (first_grant-cases now resource_id scopes grants) [
        | inl (f, n) ↦ inl (rw (first_grant, b) f, ground (arith, a, n))
        | inr (g, f, w) ↦ inr (
          g,
          rw (first_grant, b) f,
          record {
            before = (t, i) ∷ w.before;
            after = w.after;
            scope = w.scope;
            split = ap (λ xs. (t, i) ∷ xs) w.split;
            skipped = ground (arith, a, w.skipped);
            chosen = w.chosen;
          },
        )
      ]
    ]

-- A grant is live if it is enabled and has no expiry, or one whose text is later than the clock's text.
-- Of the scopes agent, project and team, in this order, the first with a live grant for the resource
-- decides, and among its live grants one of the highest priority is returned; there is none exactly
-- if no scope has a live grant.
pub resolve_grant_lem :
    (now resource_id project_id agent_id : String) (db : Tables)
    → let scopes = scopes_of project_id agent_id db.projects in
      ((resolve_grant now resource_id project_id agent_id db ≡ none)
        × (no_grant now resource_id scopes db.grants ≡ true))
      ⊎ ((g : Grant) × (resolve_grant now resource_id project_id agent_id db ≡ some g)
          × Found now resource_id scopes db.grants g)
unfolding resolve_grant
resolve_grant_lem now resource_id project_id agent_id db =
    first_grant-cases now resource_id (scopes_of project_id agent_id db.projects) db.grants
