-- ===== src/Job.antt =====
-- The class CJob of job.h and job.cpp: the state of one HTTP connection, the parser of the request,
-- and the writer of the response.
pub mod Tests
pub mod State
pub mod Buffer
pub mod Line
pub mod RequestLine
pub mod Headers
pub mod Reader
pub mod Response
pub mod Writer
pub mod Process
