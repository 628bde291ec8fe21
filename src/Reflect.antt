-- ===== src/Reflect.antt =====
-- Go's reflection as data: types, values, and the texts of integers.
pub mod GoType
pub mod Integer
pub mod Value
pub mod Unvisited
pub mod Typed
pub mod Digits
