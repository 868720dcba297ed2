-- ===== src/Py.antt =====
-- The part of Python that the handlers compute with: the values of a JSON document and of an item
-- (`dict`, `list`, `str`, `int`, `float`, `Decimal`, `bool`, `None`), exceptions, and effects.
pub mod Value
pub mod Host
pub mod Exec
pub mod Text
pub mod Fallible
pub mod Keeps
pub mod Triple
pub mod Ends
pub mod Gives
pub mod Sample
