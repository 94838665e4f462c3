-- ===== src/Text.antt =====
-- What the program uses of Python's `str` and `bytes`: digits, white space, `int(text)`, UTF-8 and
-- the printing of numbers.
pub mod Digits
pub mod Utf8
pub mod Print
pub mod Split
pub mod Find
