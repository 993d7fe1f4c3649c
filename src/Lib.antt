-- ===== src/Lib.antt =====
-- The backend of a meeting service (backend/app, Python): a recording is uploaded, a GPU service
-- transcribes and analyses it, the results are published as immutable files beside a manifest, and a
-- person reviews, approves and exports them. This library models its core.
--
-- Parts, by file:
--   Model/Text, Model/Transcript, Model/Insights, Model/Meeting and Model/Gpu are
--     backend/app/models/transcript.py, insights.py, meeting.py and gpu.py: the pydantic models as
--     records, each validator as a Boolean, or as the error that it raises.
--   Review is backend/app/services/reviews.py: Review/Overlay is `_overlay`, a review laid over the
--     original, and Review/Service the reading of the current revision, `update_review` and
--     `approve_review`.
--   Store is `LocalArtifactStore` of backend/app/services/artifact_store.py. Store/World is the state:
--     the files of the folder that `_folder` names, and what the system, the clock and the network
--     will answer. Store/Files has the file operations, with `_check` and the syncs as calls that may
--     fail; Store/Records the reading; Store/Updates creation, update and archive; Store/Publish
--     `publish_results`; Store/Deletion the locks and the deletion; Store/Cache the removal of a
--     cached PDF; Store/Render the plain text.
--   Lifecycle is backend/app/services/lifecycle.py: the retry and the deletion of a meeting.
--   Gpu is backend/app/services/gpu_client.py: a request, the answer's checks, and the errors.
--   Uploads is backend/app/services/uploads.py: Uploads/Parser is `BoundedMeetingParser`, Uploads/Media
--     the checks of what ffprobe reports, Uploads/Wave `_validate_wav`, Uploads/Ebml the reader of an
--     EBML header in `_has_webm_doctype`, and Uploads/Staging `stage_and_validate` over the staging
--     folder, whose names `temporary_upload_path` of the store reserves (Uploads/Staging/Folder).
--   Coordinator is backend/app/services/coordinator.py. Coordinator/Desk holds the record that the
--     coordinator changes in place, Coordinator/Cleanup is the cleanup and the reconciliation of
--     jobs, and Coordinator/Step is `_advance`, `_process` and `process_once`.
--   Runtime is backend/app/services/coordinator_runtime.py and local_janitor.py over one meeting: the
--     expiry of its upload, and the step of the coordinator where one is due.
--   Routes is the listing of backend/app/api/routes/meetings.py, page by page, and Export the export
--     of a meeting as PDF from the same file, with the PDF cache of the store.
-- The coordinator calls the store and the GPU client; the store calls the models' validators; a
-- retry, a review and an export call the store; a tick calls the janitor's expiry and the coordinator.
--
-- Methods are functions from a state to a result beside the next state, so what was written before an
-- exception stays written (Base/Exec). A call of the operating system is done, refused, done and then
-- failed, or finds an unsafe path, as `World.os` says; the clock and the network are such sequences
-- too, and a theorem holds for all of them where it does not say otherwise. Theorems about methods
-- rest on triples (Base/Exec/Hoare).
--
-- A folder is committed when, if there is a manifest in it that can be read, the three originals are
-- there with the hashes that the manifest records (Store/Committed); a folder without a manifest is
-- committed. The record of what was sent keeps each request with the folder as it stood then, so that
-- an order of writing and sending is a statement about that record (Coordinator/Sound).
--
-- JSON by pydantic, UTF-8, SHA-256 and the time-zone database are parameters (`Env`), and what the
-- code relies on is `IsCodec`: what was encoded is decoded again, and a SHA-256 is 64 hexadecimal
-- digits. The multipart parser below, the package wave, ffprobe and ffmpeg are parameters too
-- (Uploads/Parser, `Env` of Uploads/Staging/Folder), and so are Base64, JSON arrays, ISO instants and
-- UUIDs where a cursor is read (`Cursors` of Routes; `IsLibrary` says that they read back what they
-- wrote). UUIDs, dates and UTC
-- instants are numbers; a text is the list of its code points.
--
-- Loops are structural recursion; the digits of a number are computed on the number itself plus one
-- for fuel, and each round divides by ten. The loops over the frames of a WAV file and over the elements
-- of an EBML header run on the number of frames or of bytes plus one, since each round takes a frame or
-- two bytes at least; that this is enough is proved.
--
-- Not modelled: the checks of raw JSON before it is parsed and the literal `schema_version`; the
-- label of a demo source beyond its presence; lock files, which are opened and closed while the
-- callers run one after another; temporary files, which have no name in the folder; an upload that
-- is written in part, a staged file that cannot be opened to read its EBML header, and a process that is
-- killed; the messages of failures; the walk over
-- the folders of all meetings in the listing, in the janitor's sweep and in a tick; `parse_upload`, which reads JSON and
-- the metadata; the routes beside the listing and the export; the drawing of the PDF; the adapter of the
-- pipeline, authentication and the frontend.
pub mod Base
pub mod Model
pub mod Review
pub mod Store
pub mod Lifecycle
pub mod Gpu
pub mod Uploads
pub mod Coordinator
pub mod Runtime
pub mod Routes
pub mod Export
pub mod Tests
