-- ===== src/Iothub/MqttPipeline/Samples.antt =====
-- The flags of the pipeline at concrete inputs.
use azure_iot_dev.Prelude.{◌≡◌, refl, true, none, some, List, [], ◌∷◌}
use azure_iot_dev.Errors.{operation_timeout, pipeline_not_running, value_error}
use azure_iot_dev.Text.{codes}
use azure_iot_dev.Iothub.MqttPipeline.{
  new_pipeline, has_feature, shutdown, connect, enable_feature, disable_feature, raised, start,
  run_request,
}
use azure_iot_dev.Iothub.MqttPipeline.Outcomes.{
  is_enabled, Completion, run, pipeline_follows_outcomes, shutdown_is_final,
}

abbrev completions : List Completion
completions =
    (enable_feature (codes "twin"), (none, 0))
    ∷ (enable_feature (codes "c2d"), (some operation_timeout, 0))
    ∷ (disable_feature (codes "methods"), (some operation_timeout, 0))
    ∷ (shutdown, (some operation_timeout, 0))
    ∷ []

-- The feature is enabled, and the shutdown that failed leaves the pipeline running.
pipeline_follows_outcomes_example :
    (is_enabled (codes "twin") (run completions new_pipeline).feature_enabled ≡ true)
    × ((run completions new_pipeline).running ≡ true)
unfolding new_pipeline
pipeline_follows_outcomes_example =
    pipeline_follows_outcomes (codes "twin") completions new_pipeline

run_request-stopped :
    run_request connect (run ((shutdown, (none, 0)) ∷ completions) new_pipeline)
    ≡ raised pipeline_not_running
run_request-stopped = shutdown_is_final completions 0 connect new_pipeline

run_request-unknown : run_request (enable_feature (codes "jobs")) new_pipeline ≡ raised value_error
unfolding run_request start has_feature new_pipeline
run_request-unknown = refl
