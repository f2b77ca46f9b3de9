-- ===== src/Leases/Tests.antt =====
-- Two workers and one lease.
use bastet_agent_os.Prelude.{String, ◌≡◌, ◌≢◌, ◌↔◌, refl, eq_iff, true, false, List, [], ◌∷◌, arith}
use bastet_agent_os.Leases.{Lease, acquire, owned, upsert}
use bastet_agent_os.Leases.Acquire.{acquire_iff}
use bastet_agent_os.Leases.Exclusion.{Call, acquiring, releasing, run_all, lease_safe}

-- `ann` holds the job's lease until 60.
abbrev table : List Lease
table =
    record {
      kind = "planning";
      target_id = "p";
      owner_id = "ann";
      acquired_at = 0;
      heartbeat_at = 0;
      expires_at = 60;
    }
    ∷ []

abbrev calls : List Call
calls = acquiring 10 10 "planning" "p" "bob" 30 ∷ releasing "planning" "p" "bob" ∷ []

ann_owns : owned 59 "planning" "p" "ann" table ≡ true
unfolding owned
ann_owns = refl

abbrev ann : String
ann = "ann"

abbrev bob : String
bob = "bob"

bob_ne_ann : bob ≢ ann
bob_ne_ann h = ground (arith, eq_iff "bob" "ann", h)

lease_safe_example : owned 59 "planning" "p" "ann" (run_all calls table) ≡ true
lease_safe_example =
    lease_safe "planning" "p" "ann" 59 calls table (refl, tt)
      ((bob_ne_ann, ground arith), (bob_ne_ann, tt)) ann_owns

acquire_iff_example :
    ((acquire 10 10 "planning" "p" "bob" 30 table).1 ≡ true)
    ↔ ((other : String) → other ≢ "bob" → owned 10 "planning" "p" other table ≡ false)
acquire_iff_example = acquire_iff 10 10 "planning" "p" "bob" 30 table (refl, tt)

bob_late : (acquire 60 61 "planning" "p" "bob" 30 table).1 ≡ true
unfolding acquire upsert
bob_late = refl
