-- ===== src/Tests/Deploys.antt =====
-- Deployments at concrete inputs.
use mcp_broker.Prelude.{String, ◌≡◌, refl, inl, List, [], ◌∷◌}
use mcp_broker.Prelude.Result.{ok}
use mcp_broker.Deployments.{
  Bundle, Recovery, pointer_to, record_of, Files, no_files, Write, write_all, writes_of, run,
  result_of, record_deployment, recover_files, deployment_id, plain_text, left_dashes, right_dashes,
  all_dashes, begin_file, put_record, record_tmp, path_of,
}
use mcp_broker.Deployments.Fitting.{IsSound}
use mcp_broker.Deployments.Crashes.{Reaches, at_first, after, deploying, Reaches-IsSound}
use mcp_broker.Deployments.Healing.{Healed, recover_files-returns}
use mcp_broker.Deployments.Undo.{RolledBack, roll_back-record_deployment, record_deployment-again}

abbrev bundle : String → Bundle
bundle version = record {
  bundle_path = "/srv/bundle.json";
  bundle_id = "tools";
  version = version;
  schema_version = "1";
  checksum_algorithm = "sha256";
  checksum = "00112233445566778899";
}

named : deployment_id "my tools" "1.0 (rc)" "00112233445566778899" ≡ "my-tools-1.0-rc--001122334455"
unfolding deployment_id plain_text left_dashes right_dashes all_dashes
named = refl

abbrev staged : Files
staged = run (record_deployment (bundle "1") no_files) no_files

staged-Reaches : Reaches staged
unfolding record_deployment
staged-Reaches =
    after (deploying (bundle "1")) no_files (writes_of (record_deployment (bundle "1") no_files)) []
      at_first refl

-- The second deployment is stopped when its record is written and no pointer is.
abbrev begun : List Write
begun =
    begin_file (record_tmp (path_of (record_of (bundle "2")).deployment_id))
    ∷ put_record (path_of (record_of (bundle "2")).deployment_id) (record_of (bundle "2"))
    ∷ []

Reaches-IsSound_example : IsSound (write_all begun staged)
unfolding record_deployment
Reaches-IsSound_example =
    Reaches-IsSound (after (deploying (bundle "2")) staged begun _ staged-Reaches refl)

staged-IsSound : IsSound staged
staged-IsSound = Reaches-IsSound staged-Reaches

roll_back-record_deployment_example :
    RolledBack
      (pointer_to (record_of (bundle "2")))
      (pointer_to (record_of (bundle "1")))
      (run (record_deployment (bundle "2") staged) staged)
unfolding record_deployment
roll_back-record_deployment_example =
    roll_back-record_deployment (bundle "2") staged (pointer_to (record_of (bundle "1")))
      staged-IsSound refl

record_deployment-again_example :
    RolledBack (pointer_to (record_of (bundle "2"))) (pointer_to (record_of (bundle "2"))) (
      run
        (record_deployment (bundle "2") (run (record_deployment (bundle "2") staged) staged))
        (run (record_deployment (bundle "2") staged) staged))
record_deployment-again_example = record_deployment-again (bundle "2") staged staged-IsSound

recover_files-returns_example :
    (r : Recovery) × (result_of (recover_files (write_all begun staged)) ≡ ok r)
    × Healed (write_all begun staged) (recover_files (write_all begun staged)) r
unfolding record_deployment deployment_id
recover_files-returns_example = recover_files-returns (write_all begun staged) (inl refl)
