-- ===== src/Text.antt =====
-- What the program uses of `snprintf`: the conversions of its formats, and the writes to a buffer.
-- A text is the list of its bytes, without the zero at the end.
pub mod Numbers
pub mod Buffer
pub mod Prints
