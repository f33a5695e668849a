-- ===== src/Taxes/Spain.antt =====
-- Spanish tax rules, src/taxes/spain.
pub mod Carryforward
pub mod Coefficients
pub mod Compensation
pub mod Credit
pub mod Exemption
pub mod Scale
