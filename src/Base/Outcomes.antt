-- ===== src/Base/Outcomes.antt =====
-- How a call of a member function ended, beside the state that it left.
pub data Outcome : Type 0 where
  returned : Outcome
  thrown : Outcome
