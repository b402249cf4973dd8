-- ===== src/Rain/Glyphs.antt =====
-- The glyph of a row of a stream.
use Prim.Native.String.{count}
use justverify.Common.{ℕ, ◌+◌, ◌%◌, ◌<◌, ◌≡◌, refl, arith}
use justverify.Rain.{hex, Stream, Row, ahead, behind, glyphs, index}

count-hex : count hex ≡ glyphs
count-hex = refl

-- `offset + row`, counted modulo the number of glyphs, is what the glyph's place is equal to.
abbrev pub IsPlace : ℕ → Row → ℕ → Type 0
IsPlace offset (ahead r) i = i ≡ (offset + r) % glyphs
IsPlace offset (behind r) i = (i + r) % glyphs ≡ offset % glyphs

-- The place of every row, above the window's top too, is inside the text of the genesis block, and
-- is the stream's offset moved by the row, around the text.
pub index-IsPlace :
    (stream : Stream) (row : Row)
    → (index stream row < count hex) × IsPlace stream.offset row (index stream row)
unfolding index
index-IsPlace stream (ahead r) = rw count-hex (omega arith)
index-IsPlace stream (behind r) = rw count-hex (ground arith)
