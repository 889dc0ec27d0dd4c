-- ===== src/Challenge.antt =====
-- services/challenge_service.py: the proof of work that a challenged client solves, the tokens that
-- it solves it for, and the `waf_pass` cookie that it gets.
pub mod Work
pub mod Token
pub mod PassCookie
