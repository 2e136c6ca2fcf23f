-- ===== src/Ingestion.antt =====
-- backend/app/services/ingestion: from an uploaded file to rows and a job record.
pub mod Types
pub mod Pipeline
pub mod Parsers
pub mod Normalizer
