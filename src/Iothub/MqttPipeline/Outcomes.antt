-- ===== src/Iothub/MqttPipeline/Outcomes.antt =====
-- The flags of the pipeline over any sequence of completed operations.
use azure_iot_dev.Prelude.{
  ℕ, ◌≡◌, refl, ap, ◌∙◌, Bool, true, false, Option, none, List, [], ◌∷◌, arith, if◌then◌else◌,
  Bool-cases, inl, inr,
}
use azure_iot_dev.Errors.{Error, pipeline_not_running}
use azure_iot_dev.Text.{Text, text_eq}
use azure_iot_dev.Text.Equal.{text_eq_cong, text_eq_comm}
use azure_iot_dev.Iothub.MqttPipeline.{
  Flags, Pipeline, Request, shutdown, enable_feature, disable_feature, raised, set_feature,
  run_request, on_complete,
}

-- `feature_enabled[name]`, for a feature.
abbrev pub is_enabled : Text → Flags → Bool
is_enabled name [] = false
is_enabled name ((n, flag) ∷ rest) = if text_eq n name then flag else is_enabled name rest

enabled-set :
    (name other : Text) (flag : Bool) (flags : Flags)
    → is_enabled other (set_feature name flag flags)
      ≡ (if text_eq name other then flag else is_enabled other flags)
unfolding set_feature
enabled-set name other flag [] = refl
enabled-set name other flag ((n, old) ∷ rest) =
    let same_left = text_eq_cong n name other in
    let same_right = text_eq_cong name other n in
    let turned_name = text_eq_comm n name in
    let turned_other = text_eq_comm n other in
    let shorter = enabled-set name other flag rest in
    elim (Bool-cases (text_eq n name)) [
      | inl here ↦ ground (arith, here, same_left)
      | inr there ↦ ground (arith, there, same_right, turned_name, turned_other, shorter)
    ]

-- An operation that completed, with its error and its twin.
abbrev pub Completion : Type 0
Completion = Request × (Option Error × ℕ)

abbrev pub run : List Completion → Pipeline → Pipeline
run [] p = p
run ((request, (error, twin)) ∷ rest) p = run rest (on_complete request error twin p).0

-- A feature is enabled by a success, and disabled by any outcome.
abbrev pub feature_outcome : Text → Request → Option Error → Bool → Bool
feature_outcome name (enable_feature n) none before = if text_eq n name then true else before
feature_outcome name (disable_feature n) error before = if text_eq n name then false else before
feature_outcome name _ error before = before

abbrev pub running_outcome : Request → Option Error → Bool → Bool
running_outcome shutdown none before = false
running_outcome _ error before = before

abbrev pub feature_after : Text → List Completion → Bool → Bool
feature_after name [] before = before
feature_after name ((request, (error, twin)) ∷ rest) before =
    feature_after name rest (feature_outcome name request error before)

abbrev pub running_after : List Completion → Bool → Bool
running_after [] before = before
running_after ((request, (error, twin)) ∷ rest) before =
    running_after rest (running_outcome request error before)

module _ (error : Option Error) (twin : ℕ) (p : Pipeline) where
  complete_feature :
      (name : Text) (request : Request)
      → is_enabled name (on_complete request error twin p).0.feature_enabled
        ≡ feature_outcome name request error (is_enabled name p.feature_enabled)
  unfolding on_complete
  complete_feature name (enable_feature n) =
      ground (arith, enabled-set n name true p.feature_enabled)
  complete_feature name (disable_feature n) =
      ground (arith, enabled-set n name false p.feature_enabled)
  complete_feature name request = ground arith

  complete_running :
      (request : Request)
      → (on_complete request error twin p).0.running ≡ running_outcome request error p.running
  unfolding on_complete
  complete_running request = ground arith

-- After any sequence of completed operations a feature is enabled exactly if its last operation of
-- those that enabled it with success or disabled it, with success or not, enabled it, or none did
-- either and it was enabled before; and the pipeline runs exactly if it did before and no shutdown
-- was successful.
pub pipeline_follows_outcomes :
    (name : Text) (completions : List Completion) (p : Pipeline)
    → (is_enabled name (run completions p).feature_enabled
        ≡ feature_after name completions (is_enabled name p.feature_enabled))
      × ((run completions p).running ≡ running_after completions p.running)
pipeline_follows_outcomes name [] p = (refl, refl)
pipeline_follows_outcomes name ((request, (error, twin)) ∷ rest) p =
    let later = pipeline_follows_outcomes name rest (on_complete request error twin p).0 in
    (
      later.0 ∙ ap (feature_after name rest) (complete_feature error twin p name request),
      later.1 ∙ ap (running_after rest) (complete_running error twin p request),
    )

stopped_stays : (completions : List Completion) → running_after completions false ≡ false
stopped_stays [] = refl
stopped_stays ((request, (error, twin)) ∷ rest) =
    ap (running_after rest) (ground arith) ∙ stopped_stays rest

-- After a successful shutdown every method raises `PipelineNotRunning`, whatever completes later.
pub shutdown_is_final :
    (completions : List Completion) (twin : ℕ) (request : Request) (p : Pipeline)
    → run_request request (run ((shutdown, (none, twin)) ∷ completions) p)
      ≡ raised pipeline_not_running
unfolding run_request on_complete
shutdown_is_final completions twin request p =
    let stopped =
      (pipeline_follows_outcomes [] completions (record p { running = false })).1
      ∙ stopped_stays completions in
    ground (arith, stopped)
