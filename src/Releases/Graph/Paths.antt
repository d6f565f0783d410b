-- ===== src/Releases/Graph/Paths.antt =====
-- Along which states a release (dploydb/releases.py) came to the one that it is in.
use dploy_db.Base.{
  ℕ, zero, suc, ◌≤◌, ◌≡◌, refl, sym, ◌∙◌, Bool, true, false, List, [], ◌∷◌, ◌⊎◌, inl, inr, is_some,
  arith,
}
use dploy_db.Models.State.{
  DeploymentState, created, preflight_passed, snapshot_verified, rehearsal_passed,
  candidate_healthy, maintenance_enabled, current_app_stopped, final_snapshot_verified,
  production_migrated, new_app_healthy, traffic_activated, active, rollback_started, rolled_back,
  failed_safe, recovery_required, state_index, state_in,
}
use dploy_db.Models.Manifest.{ReleaseManifest, is_terminal}
use dploy_db.Raised.{returned}
use dploy_db.Releases.{Changes, transitions, changed, intent_manifest, resolve_manifest}
use dploy_db.Releases.Graph.{
  History, start, advance, intend, resolve, Advanced, transition-Advanced, intent-Intended,
  transitions_forward,
}
use dploy_db.Releases.Resolve.{resolve_manifest-Resolved}

-- The status after a returned transition is the one that was asked for.
Advanced-status :
    {m m' : ReleaseManifest} {now : ℕ} {s : DeploymentState} {c : Changes}
    → Advanced m now s c m'
    → m'.status ≡ s
unfolding changed
Advanced-status a = rw a.result

-- The states of a deployment that goes forward, by their places.
abbrev forward_state : ℕ → DeploymentState
forward_state zero = created
forward_state (suc zero) = preflight_passed
forward_state (suc (suc zero)) = snapshot_verified
forward_state (suc (suc (suc zero))) = rehearsal_passed
forward_state (suc (suc (suc (suc zero)))) = candidate_healthy
forward_state (suc (suc (suc (suc (suc zero))))) = maintenance_enabled
forward_state (suc (suc (suc (suc (suc (suc zero)))))) = current_app_stopped
forward_state (suc (suc (suc (suc (suc (suc (suc zero))))))) = final_snapshot_verified
forward_state (suc (suc (suc (suc (suc (suc (suc (suc zero)))))))) = production_migrated
forward_state (suc (suc (suc (suc (suc (suc (suc (suc (suc zero))))))))) = new_app_healthy
forward_state (suc (suc (suc (suc (suc (suc (suc (suc (suc (suc zero)))))))))) = traffic_activated
forward_state (suc (suc (suc (suc (suc (suc (suc (suc (suc (suc (suc n))))))))))) = active

abbrev pub forward_path : ℕ → List DeploymentState
forward_path zero = created ∷ []
forward_path (suc n) = forward_state (suc n) ∷ forward_path n

-- Into a state of the forward path leads one edge only, from the state before it.
forward_edge :
    (s t : DeploymentState)
    → state_in t (transitions s) ≡ true
    → state_index t ≤ 11
    → (state_index t ≡ suc (state_index s)) × (forward_state (state_index t) ≡ t)
unfolding transitions state_in state_index
forward_edge s t h b = ground arith

forward_step :
    (s t : DeploymentState) (h : List DeploymentState)
    → state_in t (transitions s) ≡ true
    → state_index t ≤ 11
    → h ≡ forward_path (state_index s)
    → t ∷ h ≡ forward_path (state_index t)
forward_step s t h e b ih =
    let (next, name) = forward_edge s t e b in
    let name' : forward_state (suc (state_index s)) ≡ t = rw next at name in rw next (cc)

forward_below :
    (s t : DeploymentState)
    → state_in t (transitions s) ≡ true
    → state_index t ≤ 11
    → state_index s ≤ 11
forward_below s t e b = omega (arith, transitions_forward s t e)

-- A resolution leads behind the forward path, to an end state.
resolve-late :
    (m m' : ReleaseManifest) (now : ℕ) (s : DeploymentState) (recovery : ℕ) (activated : Bool)
    → resolve_manifest m now s recovery activated ≡ returned m'
    → state_index m'.status ≤ 10
    → ⊥
unfolding state_index
resolve-late m m' now s recovery activated e b =
    let r = resolve_manifest-Resolved m now s recovery activated m' e in
    ground (arith, r.target, r.reached)

-- A release that is in a state of the forward path came along all the states before it, in order.
History-forward :
    {m : ReleaseManifest} {h : List DeploymentState}
    → History m h
    → state_index m.status ≤ 10
    → h ≡ forward_path (state_index m.status)
unfolding state_index
History-forward (start e v) b = rw e
History-forward (advance {m = m} {h = h} now s c p e) b =
    let a = transition-Advanced m now s c e in
    let b' : state_index s ≤ 10 = rw (Advanced-status a) at b in
    rw (Advanced-status a) (
      forward_step m.status s h a.allowed (omega (arith, b'))
        (History-forward p (omega (arith, b', transitions_forward m.status s a.allowed))))
History-forward (intend {m = m} now x y p e) b =
    let same = (intent-Intended m now x y e).same_status in
    rw same (History-forward p (rw same at b))
History-forward (resolve {m = m} now s r x p e) b = absurd (resolve-late m _ now s r x e b)

-- What the edges into the other states leave from.
active_edge : (s : DeploymentState) → state_in active (transitions s) ≡ true → s ≡ traffic_activated
unfolding transitions state_in
active_edge s h = ground arith

rollback_edge :
    (s : DeploymentState)
    → state_in rollback_started (transitions s) ≡ true
    → (5 ≤ state_index s) × (state_index s ≤ 9)
unfolding transitions state_in state_index
rollback_edge s h = ground arith

rolled_back_edge :
    (s : DeploymentState) → state_in rolled_back (transitions s) ≡ true → s ≡ rollback_started
unfolding transitions state_in
rolled_back_edge s h = ground arith

failed_safe_edge :
    (s : DeploymentState) → state_in failed_safe (transitions s) ≡ true → state_index s ≤ 4
unfolding transitions state_in state_index
failed_safe_edge s h = ground arith

required_edge :
    (s : DeploymentState)
    → state_in recovery_required (transitions s) ≡ true
    → (state_index s ≤ 10) ⊎ (s ≡ rollback_started)
unfolding transitions state_in state_index
required_edge s h = ground arith

-- A rollback that started inside maintenance, before new traffic was activated.
abbrev pub RollbackPath : List DeploymentState → Type 0
RollbackPath h = (n : ℕ) × (5 ≤ n) × (n ≤ 9) × (h ≡ rollback_started ∷ forward_path n)

-- A deployment that was still going forward or was rolling back.
abbrev pub UnfinishedPath : List DeploymentState → Type 0
UnfinishedPath h = ((n : ℕ) × (n ≤ 10) × (h ≡ forward_path n)) ⊎ RollbackPath h

-- Recovery was required of an unfinished deployment, and an operation that the release names has
-- resolved it to `s`.
abbrev pub RecoveredTo : DeploymentState → ReleaseManifest → List DeploymentState → Type 0
RecoveredTo s m h =
    (before : List DeploymentState) × (h ≡ s ∷ recovery_required ∷ before)
    × UnfinishedPath before
    × (is_some m.recovery_operation_id ≡ true)

rollback_history :
    {m : ReleaseManifest} {h : List DeploymentState}
    → History m h
    → m.status ≡ rollback_started
    → RollbackPath h
rollback_history (start e v) q = cc
rollback_history (advance {m = m} now s c p e) q =
    let a = transition-Advanced m now s c e in
    let to : s ≡ rollback_started = sym (Advanced-status a) ∙ q in
    let (lo, hi) = rollback_edge m.status (rw to at a.allowed) in
    let h' = History-forward p (omega arith) in (state_index m.status, lo, hi, cc)
rollback_history (intend {m = m} now x y p e) q =
    rollback_history p (sym ((intent-Intended m now x y e).same_status) ∙ q)
rollback_history (resolve {m = m} now s r x p e) q =
    let t = resolve_manifest-Resolved m now s r x _ e in ground (arith, t.target, t.reached)

required_history :
    {m : ReleaseManifest} {h : List DeploymentState}
    → History m h
    → m.status ≡ recovery_required
    → (before : List DeploymentState) × (h ≡ recovery_required ∷ before) × UnfinishedPath before
required_history (start e v) q = cc
required_history (advance {m = m} {h = h} now s c p e) q =
    let a = transition-Advanced m now s c e in
    let to : s ≡ recovery_required = sym (Advanced-status a) ∙ q in
    elim (required_edge m.status (rw to at a.allowed)) [
      | inl open_path ↦ (h, cc, inl (state_index m.status, open_path, History-forward p open_path))
      | inr rolling ↦ (h, cc, inr (rollback_history p rolling))
    ]
required_history (intend {m = m} now x y p e) q =
    required_history p (sym ((intent-Intended m now x y e).same_status) ∙ q)
required_history (resolve {m = m} now s r x p e) q =
    let t = resolve_manifest-Resolved m now s r x _ e in ground (arith, t.target, t.reached)

-- Where a resolution led.
resolved_history :
    {m m' : ReleaseManifest} {h : List DeploymentState} (now : ℕ) (s t : DeploymentState)
    (recovery : ℕ) (activated : Bool)
    → History m h
    → resolve_manifest m now s recovery activated ≡ returned m'
    → s ≡ t
    → RecoveredTo t m' (s ∷ h)
resolved_history {m = m} now s t recovery activated p e to =
    let r = resolve_manifest-Resolved m now s recovery activated _ e in
    let (before, is, path) = required_history p r.was_recovery in
    (before, rw (is, to), path, rw r.by_operation)

-- No intent is recorded in an ended release.
ended_intent :
    (m m' : ReleaseManifest) (now : ℕ) (x y : Bool)
    → intent_manifest m now x y ≡ returned m'
    → (m'.status ≡ active) ⊎ (m'.status ≡ rolled_back)
    → ⊥
unfolding is_terminal
ended_intent m m' now x y e q =
    let i = intent-Intended m now x y e in ground (arith, i.open_before, i.same_status)

-- An active release either was in all twelve states of the deployment contract, one after the other,
-- none skipped and none entered twice; or its recovery, required while the deployment was
-- unfinished, was resolved to active by an operation that it names.
pub active_history :
    {m : ReleaseManifest} {h : List DeploymentState}
    → History m h
    → m.status ≡ active
    → (h
        ≡ active ∷ traffic_activated ∷ new_app_healthy ∷ production_migrated
          ∷ final_snapshot_verified ∷ current_app_stopped ∷ maintenance_enabled ∷ candidate_healthy
          ∷ rehearsal_passed ∷ snapshot_verified ∷ preflight_passed ∷ created ∷ [])
      ⊎ RecoveredTo active m h
unfolding state_index
active_history (start e v) q = cc
active_history (advance {m = m} now s c p e) q =
    let a = transition-Advanced m now s c e in
    let to : s ≡ active = sym (Advanced-status a) ∙ q in
    let from = active_edge m.status (rw to at a.allowed) in
    let path = rw from at (History-forward p (rw from (omega arith))) in inl (rw (to, path))
active_history (intend {m = m} now x y p e) q = absurd (ended_intent m _ now x y e (inl q))
active_history (resolve {m = m} now s r x p e) q =
    let t = resolve_manifest-Resolved m now s r x _ e in
    inr (resolved_history now s active r x p e (sym t.reached ∙ q))

-- A rolled-back release either started its rollback inside maintenance, from one of the states from
-- `maintenance_enabled` to `new_app_healthy`, after all the states before it in order and before new
-- traffic was activated; or its recovery, required while the deployment was unfinished, was resolved
-- to rolled back by an operation that it names.
pub rolled_back_history :
    {m : ReleaseManifest} {h : List DeploymentState}
    → History m h
    → m.status ≡ rolled_back
    → ((n : ℕ) × (5 ≤ n) × (n ≤ 9) × (h ≡ rolled_back ∷ rollback_started ∷ forward_path n))
      ⊎ RecoveredTo rolled_back m h
rolled_back_history (start e v) q = cc
rolled_back_history (advance {m = m} now s c p e) q =
    let a = transition-Advanced m now s c e in
    let to : s ≡ rolled_back = sym (Advanced-status a) ∙ q in
    let (n, lo, hi, path) = rollback_history p (rolled_back_edge m.status (rw to at a.allowed)) in
    inl (n, lo, hi, rw (to, path))
rolled_back_history (intend {m = m} now x y p e) q = absurd (ended_intent m _ now x y e (inr q))
rolled_back_history (resolve {m = m} now s r x p e) q =
    let t = resolve_manifest-Resolved m now s r x _ e in
    inr (resolved_history now s rolled_back r x p e (sym t.reached ∙ q))

-- Nothing was switched: maintenance was not even enabled.
abbrev pub BeforeMaintenance : List DeploymentState → Type 0
BeforeMaintenance h =
    (state_in maintenance_enabled h ≡ false) × (state_in current_app_stopped h ≡ false)

forward_before : (n : ℕ) → n ≤ 4 → BeforeMaintenance (forward_path n)
unfolding state_in
forward_before zero h = (refl, refl)
forward_before (suc zero) h = (refl, refl)
forward_before (suc (suc zero)) h = (refl, refl)
forward_before (suc (suc (suc zero))) h = (refl, refl)
forward_before (suc (suc (suc (suc zero)))) h = (refl, refl)
forward_before (suc (suc (suc (suc (suc k))))) h = absurd (omega arith)

-- A release that failed safe never had maintenance enabled and never had its previous application
-- stopped.
pub failed_safe_history :
    {m : ReleaseManifest} {h : List DeploymentState}
    → History m h
    → m.status ≡ failed_safe
    → BeforeMaintenance h
unfolding state_in
failed_safe_history (start e v) q = cc
failed_safe_history (advance {m = m} now s c p e) q =
    let a = transition-Advanced m now s c e in
    let to : s ≡ failed_safe = sym (Advanced-status a) ∙ q in
    let hi = failed_safe_edge m.status (rw to at a.allowed) in
    let h' = History-forward p (omega arith) in
    let before = forward_before (state_index m.status) hi in rw (to, h') before
failed_safe_history (intend {m = m} now x y p e) q =
    failed_safe_history p (sym ((intent-Intended m now x y e).same_status) ∙ q)
failed_safe_history (resolve {m = m} now s r x p e) q =
    let t = resolve_manifest-Resolved m now s r x _ e in ground (arith, t.target, t.reached)
