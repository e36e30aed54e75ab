-- ===== src/Lib.antt =====
-- Interview evidence platform: backend/src/interview_evidence.
--
-- Shared (backend/src/interview_evidence/shared): identifiers and their generator (ids.py, in
-- Shared/Ids), tenant and applicant scopes (tenant.py, in Shared/Tenant), error codes (errors.py, in
-- Shared/Errors). Messaging (shared/messaging/outbox.py and shared/_validation.py of the same folder):
-- Shapes and Payload the payloads of events, Registry what is unique by two keys, Outbox the events that wait,
-- Processed what consumers have done.
--
-- Interview (backend/src/interview_evidence/interview_engine): Session has the session and its state
-- machine (domain/session.py, application/state_machine.py), Turn the turns and chunks
-- (domain/turn.py), Idempotency the results kept by key (application/idempotency.py), Checkpoints what
-- a client resumes from (application/checkpoints.py), Recording the uploads
-- (application/recording_service.py), Context the prompt (application/context_builder.py), Questions
-- the policy (application/question_policy.py), Dialogue the adapters of retrieval and transcription
-- (adapters/retrieval_client.py, adapters/transcribe.py), Generator the question and its speech
-- (application/question_generator.py, adapters/polly.py), and Service the interview service over all
-- of these (application/interview_service.py): Service/Commands has create, start and complete,
-- Service/Finalize the way from an answer to the next question, Service/Api the commands with their
-- idempotency keys, and Service/History the service over any number of commands.
--
-- Company (backend/src/interview_evidence/company_management): invitations with their tokens, and
-- campaigns (domain/hiring.py), Consent (domain/applicant_access.py) and the competency models in
-- Criteria (domain/criteria.py). Submission (backend/src/interview_evidence/submission_analysis): the
-- states of a submission (domain/submission.py), their table in Repository
-- (repositories/postgres.py) and the uploads in Storage (adapters/object_storage.py). Reporting (backend/src/interview_evidence/reporting and
-- workers/reporting): what of a recording can be played back (domain/timeline.py,
-- application/timeline_service.py, workers/reporting/media.py), transcripts and their corrections
-- (application/transcript_service.py), reports and evidence
-- (domain/report.py, application/evidence_service.py, workers/reporting/report.py), human reviews
-- (domain/review.py, application/review_service.py) and deletion manifests (domain/deletion.py,
-- application/deletion_service.py). Analysis (backend/src/interview_evidence/workers/analysis): the
-- chunks of a document (document_chunker.py), and Job and Jobs the attempts at a job, its result and its
-- event (handlers.py).
--
-- A method of an object is a function from the object's state to a result and the state after it;
-- what was written before an exception stays written. A dictionary is its entries in insertion
-- order. An identifier is the 128-bit number of its UUID, an instant a count of milliseconds, a
-- text the list of its code points, a float a multiple of 2^-1074. The clock's readings, fresh
-- identifiers, random bytes and the answers of other services are arguments. A lock makes a call one
-- step. A mapping that only passes through is the text of its JSON.
--
-- Parameters, since their code is not in the repository: SHA-256 and the canonical JSON of a payload,
-- str.casefold, str.lower, uuid.UUID of a text, the question model and the retrieval contract; and
-- the sum of a list of floats, whose rounding is not modelled. The form of a SHA-256 digest is a
-- hypothesis where a theorem needs it.
--
-- The loop of the document chunker is on fuel, the length of the section and one: each round starts
-- at least one character later. All other loops are on lists.
--
-- Not modelled: HTTP routes, database mappings, AWS clients, configuration and wiring; and, left for
-- later, the worker loop, the services over submissions, criteria, invitations and
-- consents, and the analysis pipeline.
pub mod Base
pub mod Shared
pub mod Interview
pub mod Messaging
pub mod Company
pub mod Submission
pub mod Reporting
pub mod Analysis
pub mod Tests
