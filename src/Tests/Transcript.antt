-- ===== src/Tests/Transcript.antt =====
-- A segment that is ingested and corrected.
use gbsa_aws_project.Base.{◌≡◌, refl, true, some, none, [], ◌∷◌}
use gbsa_aws_project.Base.Dict.{Holds}
use gbsa_aws_project.Base.Equality.{nat_eq, pair_eq}
use gbsa_aws_project.Base.Exec.{ok}
use gbsa_aws_project.Interview.Text.{codes}
use gbsa_aws_project.Interview.Dialogue.{Double}
use gbsa_aws_project.Reporting.Timeline.{TimelineSpeaker}
use gbsa_aws_project.Reporting.Transcript.{
  TranscriptService, Ingestion, segment_of, corrected, ingest, correct, segment_history,
}
use gbsa_aws_project.Reporting.Transcript.Versions.{IsHistory, Reached, Reached-IsHistory}
use gbsa_aws_project.Tests.Samples.{reviewer}

abbrev ingestion : Ingestion
ingestion = record {
  company_id = 1;
  interview_session_id = 7;
  turn_id = 30;
  speaker = TimelineSpeaker.applicant;
  final_turn = true;
  text = codes "we used a que";
  confidence = Double.units 0;
  start_ms = 100;
  end_ms = 900;
  source_audio_key = codes "audio";
  segment_id = 40;
  created_at = 1000;
}

abbrev with_correction : TranscriptService
with_correction =
    (correct reviewer 40 (codes "we used a queue") 1100 (ingest reviewer ingestion []).1).1

versions :
    segment_history reviewer 40 with_correction
    ≡ ok (
        segment_of ingestion
        ∷ corrected reviewer (codes "we used a queue") 1100 (segment_of ingestion)
        ∷ [])
unfolding segment_history correct ingest gbsa_aws_project.Base.Dict.lookup
    gbsa_aws_project.Shared.Tenant.ensure_company_scope gbsa_aws_project.Base.Dict.insert
versions = refl

Reached-IsHistory_example : Holds IsHistory with_correction
Reached-IsHistory_example = Reached-IsHistory with_correction (
    Reached.corrects reviewer 40 (codes "we used a queue") 1100
      (Reached.ingests reviewer ingestion Reached.begins))
