-- ===== src/Sync/Merge.antt =====
-- internal/syncconfig/merge.go: `Decide`, and the cases in which each decision is made.
use jitenv.Base.{
  Bool, true, false, not, ◌&&◌, if◌then◌else◌, [], ◌≡◌, ◌≢◌, ◌↔◌, arith, Text, same, same_iff,
  is_empty,
}

pub data MergeDecision : Type 0 where
  noop fast_forward push_needed diverged no_remote no_base : MergeDecision

abbrev pub changes : Bool → Bool → MergeDecision
changes local_changed remote_changed =
    if not local_changed && remote_changed
    then fast_forward
    else if local_changed && not remote_changed
    then push_needed
    else if local_changed && remote_changed
    then diverged
    else noop

unfoldable pub decide : Text → Text → Text → Bool → MergeDecision
decide local remote base remote_present =
    if not remote_present
    then no_remote
    else if same local remote
    then noop
    else if is_empty base
    then no_base
    else changes (not (same local base)) (not (same remote base))

-- The case of every decision.
abbrev pub Decides : Text → Text → Text → Bool → MergeDecision → Type 0
Decides local remote base present no_remote = present ≡ false
Decides local remote base present noop = (present ≡ true) × (local ≡ remote)
Decides local remote base present no_base = (present ≡ true) × (local ≢ remote) × (base ≡ [])
Decides local remote base present fast_forward =
    (present ≡ true) × (local ≢ remote) × (base ≢ []) × (local ≡ base)
Decides local remote base present push_needed =
    (present ≡ true) × (local ≢ remote) × (base ≢ []) × (remote ≡ base)
Decides local remote base present diverged =
    (present ≡ true) × (local ≢ remote) × (base ≢ []) × (local ≢ base) × (remote ≢ base)

-- `Decide` makes every decision in exactly its case. So its last arm, which is there for two equal
-- hashes, is never reached: an up-to-date answer means that the two hashes are equal.
pub decide_iff :
    (local remote base : Text) (present : Bool) (d : MergeDecision)
    → (decide local remote base present ≡ d) ↔ Decides local remote base present d
unfolding decide
decide_iff local remote base present noop =
    ground (arith, same_iff local remote, same_iff local base, same_iff remote base)
decide_iff local remote base present fast_forward =
    ground (arith, same_iff local remote, same_iff local base, same_iff remote base)
decide_iff local remote base present push_needed =
    ground (arith, same_iff local remote, same_iff local base, same_iff remote base)
decide_iff local remote base present diverged =
    ground (arith, same_iff local remote, same_iff local base, same_iff remote base)
decide_iff local remote base present no_remote =
    ground (arith, same_iff local remote, same_iff local base, same_iff remote base)
decide_iff local remote base present no_base =
    ground (arith, same_iff local remote, same_iff local base, same_iff remote base)
