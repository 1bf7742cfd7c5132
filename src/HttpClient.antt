-- ===== src/HttpClient.antt =====
-- toolkit_enckit/source/http_client/http_client.h and http_client.cpp: the state of `HTTPClient` and
-- its operations. A string is the list of its bytes, and an easy handle of curl the list of the options
-- that the code set on it, oldest first.
pub mod State
pub mod Setters
pub mod Options
pub mod Transfer
pub mod Events
pub mod Received
pub mod Launch
pub mod Refusal
pub mod Calls
pub mod History
pub mod Refines
pub mod Asked
pub mod SentParts
pub mod Sent
