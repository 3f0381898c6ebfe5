-- ===== src/Bits.antt =====
-- `|` on unsigned words, and the single bits of a word (`w & (1 << i)`, `w |= 1 << i`,
-- `w &= ~(1 << i)`) by recursion on the bit's position.
mod Or
mod Word
pub use Or.*
unfoldable pub use Word.*
