-- ===== src/Deployments/Undo.antt =====
-- What a rollback undoes.
use mcp_broker.Prelude.{◌≡◌, refl, true, some, Option-cases, inl, inr}
use mcp_broker.Prelude.Result.{ok}
use mcp_broker.Deployments.Defs.{
  Bundle, Pointer, pointer_to, path_of, record_of, Files, run, result_of, record_deployment,
  roll_back, has_record, put_last,
}
use mcp_broker.Deployments.Fitting.{IsSound, IsThere, put_last-IsThere, deploy-IsSound}

-- A rollback from `a` to `p`: what it returns and what the files then hold.
pub record RolledBack (a p : Pointer) (f : Files) : Type 0 where
  pub result : result_of (roll_back f) ≡ ok (p.deployment_id, a.deployment_id)
  pub active : (run (roll_back f) f).active ≡ some p
  pub previous : (run (roll_back f) f).previous ≡ some a
  pub records : (run (roll_back f) f).records ≡ f.records

roll_back-exchanged :
    (f : Files) (a p : Pointer)
    → f.active ≡ some a
    → f.previous ≡ some p
    → has_record f.records p.record_path ≡ true
    → RolledBack a p f
unfolding roll_back
roll_back-exchanged f a p active previous there = record {
  result = rw (active, previous, there) refl;
  active = rw (active, previous, there) refl;
  previous = rw (active, previous, there) refl;
  records = rw (active, previous, there) refl;
}

-- The files after a deployment.
record Deployed (b : Bundle) (p : Pointer) (f g : Files) : Type 0 where
  active : g.active ≡ some (pointer_to (record_of b))
  previous : g.previous ≡ some p
  records : g.records ≡ put_last (path_of (record_of b).deployment_id) (record_of b) f.records

deployed :
    (b : Bundle) (f : Files) (p : Pointer)
    → f.active ≡ some p
    → Deployed b p f (run (record_deployment b f) f)
unfolding record_deployment
deployed b f p active = record {
  active = rw active refl;
  previous = rw active refl;
  records = rw active refl;
}

-- A rollback right after a deployment undoes it: the deployment that was active before is active
-- again, and the new one is the previous one.
pub roll_back-record_deployment :
    (b : Bundle) (f : Files) (p : Pointer)
    → IsSound f
    → f.active ≡ some p
    → RolledBack (pointer_to (record_of b)) p (run (record_deployment b f) f)
roll_back-record_deployment b f p sound active =
    let d = deployed b f p active in
    let there : IsThere f.records (some p) = rw active at sound.active in
    roll_back-exchanged _ _ p d.active d.previous
      (rw d.records (put_last-IsThere _ (record_of b) f.records (some p) there))

-- Two rollbacks, one after the other, leave the pointers and the records as they were.
pub roll_back_twice :
    (f : Files) (a p : Pointer)
    → IsSound f
    → f.active ≡ some a
    → f.previous ≡ some p
    → (let g : Files = run (roll_back f) f in RolledBack a p f × RolledBack p a g)
roll_back_twice f a p sound active previous =
    let there : IsThere f.records (some p) = rw previous at sound.previous in
    let here : IsThere f.records (some a) = rw active at sound.active in
    let first = roll_back-exchanged f a p active previous there in
    (first, roll_back-exchanged _ p a first.active first.previous (rw first.records here))

deployed_active :
    (b : Bundle) (f : Files)
    → (run (record_deployment b f) f).active ≡ some (pointer_to (record_of b))
unfolding record_deployment
deployed_active b f = elim (Option-cases f.active) [
  | inl none' ↦ rw none' refl
  | inr (p, some') ↦ rw some' refl
]

-- A bundle that is deployed twice in a row becomes its own previous deployment: the rollback that
-- follows goes from the deployment to itself and names it as both, whatever was active before.
pub record_deployment-again :
    (b : Bundle) (f : Files)
    → IsSound f
    → (let once : Files = run (record_deployment b f) f in
        RolledBack
          (pointer_to (record_of b))
          (pointer_to (record_of b))
          (run (record_deployment b once) once))
record_deployment-again b f sound =
    roll_back-record_deployment b _ (pointer_to (record_of b)) (deploy-IsSound b f sound)
      (deployed_active b f)
