-- ===== src/Model.antt =====
-- The wire and storage models (backend/app/models): records with the checks that pydantic runs on
-- them. UUIDs, dates and UTC instants are numbers, and text is the list of its code points.
pub mod Text
pub mod Transcript
pub mod Insights
pub mod Meeting
pub mod Gpu
