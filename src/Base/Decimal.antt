-- ===== src/Base/Decimal.antt =====
-- The crate `rust_decimal` (`types::Decimal`), which the program uses for every amount and which is
-- not part of the repository: the interface that the models take as a parameter.
-- A decimal has a value, `(pos_part x - neg_part x) * 10 ^ -28`, where 28 digits is the largest
-- scale that the crate has. Comparison is by value, as the crate documents. Two decimals of one
-- value may still differ (a zero carries a sign), so amounts are compared by `≈`, not by `≡`.
-- The laws say that sums are exact, of products, quotients and roundings what rounding to the last
-- digit keeps, and of a quotient that it lies to every amount as the exact one does: the documented
-- behaviour for results that fit into 96 bits.
mod Laws
mod Order
pub mod Magnitude
pub mod Units
pub use Laws.*
pub use Order.*
