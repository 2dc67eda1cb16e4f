-- ===== src/Responders.antt =====
-- The handlers of tasks: include/service_response_result.h, httpclient/, embeded_python/ and the group
-- handlers of src/ and include/.
pub mod Result
pub mod Package
pub mod Groups
pub mod GroupResponser
pub mod Busy
pub mod Python
pub mod Service
pub mod Answers
pub mod Samples
mod Tests
