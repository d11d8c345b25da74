-- ===== src/Licenses/Run.antt =====
-- One step of the licenses: a call of the service, or one run of the cron worker's job or of the
-- scheduler. Between two steps the database may behave otherwise, so each has its own `Env`.
use packfinderz_backend.Enums.{LicenseStatus}
use packfinderz_backend.Store.Tables.{Uuid, Text, World}
use packfinderz_backend.Store.Tx.{Env}
use packfinderz_backend.Licenses.Service.{
  CreateLicenseInput, create_license, verify_license, delete_license,
}
use packfinderz_backend.Licenses.Scheduler.{process}
use packfinderz_backend.Cron.LicenseLifecycle.{run_license_lifecycle}

pub data LicenseOp : Type 0 where
  create : Uuid → Uuid → CreateLicenseInput → LicenseOp
  verify : Uuid → LicenseStatus → Text → LicenseOp
  delete : Uuid → Uuid → Uuid → LicenseOp
  schedule lifecycle : LicenseOp

-- The world after a step; what it returned is of no more use.
unfoldable pub step : Env → LicenseOp → World → World
step env (LicenseOp.create u s input) w = (create_license env u s input w).1
step env (LicenseOp.verify k d reason) w = (verify_license env k d reason w).1
step env (LicenseOp.delete u s k) w = (delete_license env u s k w).1
step env LicenseOp.schedule w = (process env w).1
step env LicenseOp.lifecycle w = (run_license_lifecycle env w).1

-- The worlds that steps lead to, in any order and with any failures.
pub data LicenseReach (w : World) : World → Type 0 where
  here : LicenseReach w w
  next :
      {v : World} → LicenseReach w v → (env : Env) (op : LicenseOp) → LicenseReach w (step env op v)
