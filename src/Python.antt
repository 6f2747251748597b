-- ===== src/Python.antt =====
-- Python as the source uses it: the values that the functions accept, the exceptions that they
-- raise, and the operations of the language and its standard library that they call.
pub mod Results
pub mod Values
pub mod Texts
pub mod Order
pub mod Sorting
pub mod Actions
pub mod Contracts
pub mod Floats
