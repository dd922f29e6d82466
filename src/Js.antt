-- ===== src/Js.antt =====
-- What the JavaScript language gives the program: property maps and texts of digits.
pub mod Object
pub mod Digits
pub mod Decimal
pub mod Float
