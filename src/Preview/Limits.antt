-- ===== src/Preview/Limits.antt =====
-- What the limits on sizes come to.
use volum.Base.{ltb, if◌then◌else◌, ◌≡◌, true, ◌&&◌, none, some, arith}
use volum.Entries.{FileEntry}
use volum.Preview.{
  Blocked, can_thumbnail, preview_blocked_reason, is_text_extension, max_text_preview_bytes,
}

-- A file with a thumbnail is within the limits of the preview, unless its name is one of a text,
-- as that of an SVG picture is, and it has more than a megabyte.
preview_blocked_reason-can_thumbnail :
    (entry : FileEntry)
    → can_thumbnail entry ≡ true
    → preview_blocked_reason entry ≡ (
        if is_text_extension entry.name && ltb max_text_preview_bytes entry.size
        then some Blocked.text_limit
        else none)
unfolding can_thumbnail preview_blocked_reason
preview_blocked_reason-can_thumbnail entry h = ground (arith, h)
