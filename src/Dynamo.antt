-- ===== src/Dynamo.antt =====
-- DynamoDB through boto3, which the stores call and this repository does not hold: an interface.
-- `Expression` writes out the documented meaning of the requests, which the laws refer to.
mod Expression
mod Interface
pub mod Model
pub mod Client
pub mod Frame
unfoldable pub use Expression.*
pub use Interface.*
