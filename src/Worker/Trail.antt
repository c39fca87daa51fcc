-- ===== src/Worker/Trail.antt =====
-- Updates of jobs and keys in apps/worker/worker.py that leave the events as they are.
use nervora.Base.{String, ◌≡◌, refl, arith, Option, none, some}
use nervora.Json.{Dict}
use nervora.Audit.Models.{Db}
use nervora.Audit.Repository.{set_job_status, JobUpdate, complete_idempotency}
use nervora.Worker.{complete_key_of}

pub events-set_job_status :
    (id : Option String) (u : JobUpdate) (db : Db) → (set_job_status id u db).events ≡ db.events
unfolding set_job_status
events-set_job_status none u db = refl
events-set_job_status (some id) u db = refl

pub events-complete_key_of :
    (o : Option String) (output : Dict) (db : Db) → (complete_key_of o output db).events ≡ db.events
unfolding complete_key_of complete_idempotency
events-complete_key_of none output db = refl
events-complete_key_of (some key) output db = ground arith
