-- ===== src/Recall.antt =====
-- backend/src/postmortem_backend/recall.py: three stages of recall, of which the first, the search
-- for candidates, is the database's. The second gates the candidates and the third ranks them.
pub mod Policy
pub mod Eligible
pub mod Score
pub mod Rank
pub mod Gates
pub mod Diverse
pub mod Varied
pub mod Results
pub mod Order
pub mod Best
