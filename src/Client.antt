-- ===== src/Client.antt =====
-- services/fingerprint.py, services/ua_analyser.py and services/client_ip.py: what the headers of a
-- request say of the client that sent it, and its address.
--
-- Scores are in tenths. The module-level patterns are matched by the `re` module; what each of them
-- finds in a user agent comes in the records `Claims` and `Traits`.
pub mod Fingerprint
pub mod UserAgent
pub mod Address
