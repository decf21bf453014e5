-- ===== src/Validation.antt =====
-- The checks of user input of core/input_validator.cpp.
pub mod InputValidator
pub mod Names
pub mod PathLaws
mod Tests
