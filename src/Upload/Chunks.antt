-- ===== src/Upload/Chunks.antt =====
-- The slices that upload.ts sends: their bounds, and what they add up to.
use volum.Base.{
  ◌+◌, ◌-◌, ◌≤◌, ◌<◌, ◌≡◌, sym, ◌∙◌, min, ◌++◌, Text, arith, length, take, drop, length-take,
  length-drop, take-add,
}
use volum.Upload.{File, size, chunk_size, Transfer, next_chunk}

module _ {W : Type 0} (path : Text) (f : File) (t : Transfer W) where
  pub length-next_chunk : length (next_chunk path f t).chunk ≡ min chunk_size (size f - t.offset)
  unfolding next_chunk
  length-next_chunk =
      length-take (min (t.offset + chunk_size) (size f) - t.offset) (drop t.offset f.content)
      ∙ omega (arith, length-drop t.offset f.content)

  -- While bytes are left, the next request carries at least one byte and at most `CHUNK_SIZE` of
  -- them, all of which lie in the file.
  pub next_chunk_bounds :
      t.offset < size f
      → (0 < length (next_chunk path f t).chunk)
        × (length (next_chunk path f t).chunk ≤ chunk_size)
        × (t.offset + length (next_chunk path f t).chunk ≤ size f)
  next_chunk_bounds h = omega (arith, length-next_chunk)

  -- What was sent before and the next chunk together are a longer prefix of the file.
  pub take-next_chunk :
      take t.offset f.content ++ (next_chunk path f t).chunk
      ≡ take (t.offset + (min (t.offset + chunk_size) (size f) - t.offset)) f.content
  unfolding next_chunk
  take-next_chunk =
      sym (take-add t.offset (min (t.offset + chunk_size) (size f) - t.offset) f.content)
