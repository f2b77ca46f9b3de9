-- ===== src/Schedules/Ticker/Claims.antt =====
-- schedules.py: the claims that `tick` and `run_now` dispatch.
use mathlib.Core.Path.{subst}
use bastet_agent_os.Prelude.{
  ℕ, String, ◌≡◌, ◌≢◌, refl, ◌∙◌, inl, inr, false, List, [], ◌∷◌, ◌++◌, some, Bool-cases,
  ||-eq-false, All,
}
use bastet_agent_os.Schedules.Store.{Db}
use bastet_agent_os.Schedules.Ticker.{add_keys, dispatch_all}
use bastet_agent_os.Schedules.Ticker.Dispatch.{
  Key, same_key, has_key, status_at, Orchestrator, dispatch,
}
use bastet_agent_os.Schedules.Ticker.Rows.{same_key→eq, same_key_refl}
use bastet_agent_os.Schedules.Ticker.Once.{IsSound, IsClaimed, Step, dispatch-Step}

-- A row that is not a claim stays as it is.
abbrev pub Keeps : Db → Db → Type 0
Keeps db after =
    (l : Key) (w : String)
    → status_at l db.runs ≡ some w
    → w ≢ "claimed"
    → status_at l after.runs ≡ some w

abbrev pub AreDistinct : List Key → Type 0
AreDistinct [] = Unit
AreDistinct (k ∷ keys) = (has_key k keys ≡ false) × AreDistinct keys

abbrev pub AreClaimed : Db → List Key → Type 0
AreClaimed db = All (IsClaimed db)

same_key_sym : (a b : Key) → same_key a b ≡ false → same_key b a ≡ false
same_key_sym a b h = elim (Bool-cases (same_key b a)) [
  | inl e ↦ let bad : ⊥ = cc (same_key_refl b, same_key→eq b a e, h) in absurd bad
  | inr e ↦ e
]

-- After the dispatch of one claim the others are still claims.
still_claimed :
    (k : Key) (db after : Db) (keys : List Key)
    → Step k db after
    → has_key k keys ≡ false
    → AreClaimed db keys
    → AreClaimed after keys
still_claimed k db after [] step n c = tt
still_claimed k db after (l ∷ keys) step n (c, cs) =
    let (here, there) = ||-eq-false (same_key k l) (has_key k keys) n in
    (step.others l (same_key_sym k l here) ∙ c, still_claimed k db after keys step there cs)

pub Step-Keeps : (k : Key) (db after : Db) → Step k db after → IsClaimed db k → Keeps db after
Step-Keeps k db after step c l w h ne = elim (Bool-cases (same_key l k)) [
  | inl here ↦
      let p : l ≡ k = same_key→eq l k here in
      let q : status_at k db.runs ≡ some w = subst (λ x. status_at x db.runs ≡ some w) p h in
      absurd (ne (cc (c, q)))
  | inr there ↦ step.others l there ∙ h
]

pub dispatch_all-IsSound :
    (orchestrator : Orchestrator) (clock : ℕ) (keys : List Key) (db : Db)
    → IsSound db
    → AreDistinct keys
    → AreClaimed db keys
    → let after = (dispatch_all orchestrator clock keys db).1 in IsSound after × Keeps db after
unfolding dispatch_all
dispatch_all-IsSound orchestrator clock [] db i nd c = (i, λ l w h ne. h)
dispatch_all-IsSound orchestrator clock (k ∷ keys) db i (n, nd) (c, cs) =
    let after = (dispatch orchestrator clock k db).1 in
    let step : Step k db after = dispatch-Step orchestrator clock k db i c in
    let (j, kept) =
      dispatch_all-IsSound orchestrator clock keys after step.sound nd
        (still_claimed k db after keys step n cs) in
    (j, λ l w h ne. kept l w (Step-Keeps k db after step c l w h ne) ne)

-- A list of distinct claims.
pub record AreReady (db : Db) (keys : List Key) : Type 0 where
  pub distinct : AreDistinct keys
  pub claims : AreClaimed db keys

has_key-snoc :
    (k l : Key) (keys : List Key)
    → has_key k keys ≡ false
    → same_key k l ≡ false
    → has_key k (keys ++ l ∷ []) ≡ false
has_key-snoc k l [] h n = simp n refl
has_key-snoc k l (x ∷ keys) h n =
    let (here, there) = ||-eq-false (same_key k x) (has_key k keys) h in
    simp (here, has_key-snoc k l keys there n) refl

distinct-snoc :
    (keys : List Key) (k : Key)
    → AreDistinct keys
    → has_key k keys ≡ false
    → AreDistinct (keys ++ k ∷ [])
distinct-snoc [] k nd n = (refl, tt)
distinct-snoc (x ∷ keys) k (h, nd) n =
    let (here, there) = ||-eq-false (same_key k x) (has_key k keys) n in
    (has_key-snoc x k keys h (same_key_sym k x here), distinct-snoc keys k nd there)

claimed-snoc :
    (db : Db) (keys : List Key) (k : Key)
    → AreClaimed db keys
    → IsClaimed db k
    → AreClaimed db (keys ++ k ∷ [])
claimed-snoc db [] k cs c = (c, tt)
claimed-snoc db (x ∷ keys) k (h, cs) c = (h, claimed-snoc db keys k cs c)

pub AreReady-snoc :
    (db : Db) (keys : List Key) (k : Key)
    → AreReady db keys
    → has_key k keys ≡ false
    → IsClaimed db k
    → AreReady db (keys ++ k ∷ [])
AreReady-snoc db keys k r n c = record {
  distinct = distinct-snoc keys k r.distinct n;
  claims = claimed-snoc db keys k r.claims c;
}

pub add_keys-AreReady :
    (db : Db) (keys more : List Key)
    → AreReady db keys
    → AreClaimed db more
    → AreReady db (add_keys keys more)
unfolding add_keys
add_keys-AreReady db keys [] r c = r
add_keys-AreReady db keys (k ∷ more) r (c, cs) = elim (Bool-cases (has_key k keys)) [
  | inl e ↦ rw e (add_keys-AreReady db keys more r cs)
  | inr e ↦ rw e (add_keys-AreReady db (keys ++ k ∷ []) more (AreReady-snoc db keys k r e c) cs)
]
