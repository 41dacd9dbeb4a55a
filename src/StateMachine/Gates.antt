-- ===== src/StateMachine/Gates.antt =====
-- The table `GATES` of VALIDATORS/state_machine.py.
use mystery_starter_kit.Common.{String, List, [], ◌∷◌}
use mystery_starter_kit.Project.{ProjectStatus}

pub record GateDefinition : Type 0 where
  pub gate_id : String
  pub required_artifacts : List String
  pub target_state : ProjectStatus

abbrev gate : String → ProjectStatus → List String → GateDefinition
gate gate_id target_state required_artifacts = record {
  gate_id = gate_id;
  required_artifacts = required_artifacts;
  target_state = target_state;
}

abbrev pub gates : List GateDefinition
gates =
    gate "GATE-00" ProjectStatus.compatibility_validated (
      "project_manifest" ∷ "compatibility_report" ∷ "production_config" ∷ "project_constraints"
      ∷ [])
    ∷ gate "GATE-01" ProjectStatus.variation_approved (
        "variation_candidates" ∷ "candidate_evaluation" ∷ "novelty_precheck"
        ∷ "candidate_eligibility" ∷ "candidate_approval" ∷ "source_case_brief"
        ∷ "verified_fact_ledger" ∷ "source_subjects" ∷ "verified_event_ledger"
        ∷ "source_truth_contract" ∷ [])
    ∷ gate "GATE-02" ProjectStatus.story_designed ("story_dna" ∷ [])
    ∷ gate "GATE-03" ProjectStatus.case_defined (
        "case_input" ∷ "facts" ∷ "crime_psychology" ∷ "sources" ∷ "claim_evidence"
        ∷ "source_disclosure" ∷ "clinical_labels" ∷ [])
    ∷ gate "GATE-04" ProjectStatus.characters_designed
        ("characters" ∷ "relationships" ∷ "knowledge_matrix" ∷ [])
    ∷ gate "GATE-05" ProjectStatus.mystery_designed (
        "actual_timeline" ∷ "viewer_timeline" ∷ "audience_belief" ∷ "clue_matrix"
        ∷ "hypothesis_ledger" ∷ "causal_graph" ∷ [])
    ∷ gate "GATE-06" ProjectStatus.story_structured
        ("beat_sheet" ∷ "retention_plan" ∷ "psychological_arc" ∷ [])
    ∷ gate "GATE-07" ProjectStatus.scenes_designed (
        "scene_cards" ∷ "character_state_transitions" ∷ "production_footprint" ∷ "panel_cast"
        ∷ "reaction_segments" ∷ "expert_segments" ∷ "presentation_plan" ∷ [])
    ∷ gate "GATE-08" ProjectStatus.script_written (
        "drama_script" ∷ "narration_script" ∷ "panel_reaction_script" ∷ "expert_analysis_script"
        ∷ "draft_script" ∷ "final_script" ∷ "screenplay_units" ∷ "broadcast_readable_script"
        ∷ "reenactment_character_script" ∷ [])
    ∷ gate "GATE-09" ProjectStatus.script_written (
        "continuity_report" ∷ "script_realization_report" ∷ "reenactment_export_report"
        ∷ "broadcast_readable_report" ∷ [])
    ∷ gate "GATE-10" ProjectStatus.script_written ("story_fingerprint" ∷ "novelty_report" ∷ [])
    ∷ gate "GATE-11" ProjectStatus.script_written ("reference_collision_report" ∷ [])
    ∷ gate "GATE-12" ProjectStatus.qa_passed
        ("channel_consistency_report" ∷ "validation_report" ∷ [])
    ∷ gate "GATE-13" ProjectStatus.editorial_review_required (
        "shooting_script" ∷ "production_manifest" ∷ "narration" ∷ "production_panel_reaction_script"
        ∷ "production_expert_analysis_script" ∷ "subtitle_script" ∷ "edit_script"
        ∷ "production_reenactment_character_script" ∷ "production_broadcast_readable_script"
        ∷ "editorial_review" ∷ [])
    ∷ []
