-- ===== src/Licenses/Kyc.antt =====
-- A store is verified exactly if it has a verified license, over any steps.
use packfinderz_backend.Store.Tables.{World}
use packfinderz_backend.Store.Tx.{Env}
use packfinderz_backend.Store.Outcome.{Outcome-tables}
use packfinderz_backend.Licenses.Service.{create_license, verify_license, delete_license}
use packfinderz_backend.Licenses.Agrees.{Good}
use packfinderz_backend.Licenses.Operations.{
  create_license-Good, verify_license-Good, delete_license-Good,
}
use packfinderz_backend.Licenses.Scheduled.{process-Good}
use packfinderz_backend.Licenses.Lifecycle.{run_license_lifecycle-Good}
use packfinderz_backend.Licenses.Run.{LicenseOp, LicenseReach, step}

step-Good : (env : Env) (op : LicenseOp) (w : World) → Good w.tables → Good (step env op w).tables
unfolding step
step-Good env (LicenseOp.create u s input) w g =
    Outcome-tables Good (create_license env u s input w) (create_license-Good env u s input w g)
step-Good env (LicenseOp.verify k d reason) w g =
    Outcome-tables Good (verify_license env k d reason w) (verify_license-Good env k d reason w g)
step-Good env (LicenseOp.delete u s k) w g =
    Outcome-tables Good (delete_license env u s k w) (delete_license-Good env u s k w g)
step-Good env LicenseOp.schedule w g = process-Good env w g
step-Good env LicenseOp.lifecycle w g = run_license_lifecycle-Good env w g

-- From a database in which the KYC status of a store is `verified` exactly if one of its licenses
-- is verified, and no two licenses have one identifier, every sequence of creations, verifications,
-- deletions, scheduler rounds and license jobs, with any calls failing, leads to such a database.
pub Reach-Good : (w : World) {v : World} → LicenseReach w v → Good w.tables → Good v.tables
Reach-Good w LicenseReach.here g = g
Reach-Good w (LicenseReach.next {v = u} r env op) g = step-Good env op u (Reach-Good w r g)
