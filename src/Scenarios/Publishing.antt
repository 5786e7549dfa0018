-- ===== src/Scenarios/Publishing.antt =====
-- The lifecycle theorems at concrete calls.
use ori_skills_hub.Prelude.{◌≡◌, refl, sym, subst, false, [], ◌∷◌, Memᴰ, codes}
use ori_skills_hub.Database.{Db, ScanJob, empty_tables}
use ori_skills_hub.Database.Guards.{is_evidence}
use ori_skills_hub.Lifecycle.{run}
use ori_skills_hub.Lifecycle.History.{IsConsistent, was_listed}
use ori_skills_hub.Lifecycle.Runs.{run-IsConsistent, unproven_is_not_listed}
use ori_skills_hub.Lifecycle.Trail.Jobs.{Continues, run-Continues, terminal_is_final}
use ori_skills_hub.Lifecycle.Trail.Log.{GrowsLog, run-GrowsLog}
use ori_skills_hub.Scenarios.{alice, scanned_calls, publish_pump, lease_pump}
use ori_skills_hub.Scenarios.Tables.{published, publish_step, new_scan, pump_pending}
use ori_skills_hub.Scenarios.Scanning.{scanned, clean_job}

run-IsConsistent_example : IsConsistent (run (empty_tables (alice ∷ [])) (scanned_calls false))
run-IsConsistent_example = run-IsConsistent (alice ∷ []) (scanned_calls false)

pub published-run : run (empty_tables (alice ∷ [])) (publish_pump false ∷ []) ≡ published
unfolding run
published-run = publish_step

unproven_is_not_listed_example : was_listed pump_pending.status ≡ false
unfolding is_evidence
unproven_is_not_listed_example =
    unproven_is_not_listed (alice ∷ []) (publish_pump false ∷ []) pump_pending new_scan
      (subst (λ (d : Db). Memᴰ pump_pending d.skills) (sym published-run) (Memᴰ.head refl))
      (subst (λ (d : Db). Memᴰ new_scan d.jobs) (sym published-run) (Memᴰ.head refl)) refl refl refl

run-Continues_example :
    (k : ScanJob) × Memᴰ k (run published (lease_pump 200 (codes "event2") ∷ [])).jobs
    × Continues new_scan k
run-Continues_example =
    run-Continues published (lease_pump 200 (codes "event2") ∷ []) new_scan (Memᴰ.head refl)

terminal_is_final_example : Memᴰ clean_job (run scanned (lease_pump 900 (codes "event9") ∷ [])).jobs
terminal_is_final_example =
    terminal_is_final scanned (lease_pump 900 (codes "event9") ∷ []) clean_job (Memᴰ.head refl) refl

run-GrowsLog_example : GrowsLog published (run published (lease_pump 200 (codes "event2") ∷ []))
run-GrowsLog_example = run-GrowsLog published (lease_pump 200 (codes "event2") ∷ [])
