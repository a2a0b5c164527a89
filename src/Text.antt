-- ===== src/Text.antt =====
-- Python texts: sequences of Unicode code points, their white space, their words and their UTF-8.
pub mod Utf8
pub mod Space
pub mod Scalars
pub mod Words
pub mod Trim
