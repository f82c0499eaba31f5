-- ===== src/Js.antt =====
-- What the program uses of the JavaScript language and its standard library.
pub mod Object
pub mod Text
pub mod Array
pub mod Number
