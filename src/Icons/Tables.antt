-- ===== src/Icons/Tables.antt =====
-- The tables of frontend/src/api/icons.ts, and the pictures in frontend/src/assets/mimetypes.
use Prim.Native.String.{String}
use volum.Base.{Text, codes, List, [], ◌∷◌, map}

-- A table as it is written, by texts.
abbrev table_of : List (String × String) → List (Text × Text)
table_of [] = []
table_of ((k, v) ∷ rows) = (codes k, codes v) ∷ table_of rows

-- The names of the pictures, without `.svg`: what `import.meta.glob` finds.
unfoldable pub mimetype_assets : List Text
mimetype_assets = map codes (
    "application-epub+zip" ∷ "application-json" ∷ "application-octet-stream" ∷ "application-ogg"
    ∷ "application-pdf" ∷ "application-vnd.comicbook+zip"
    ∷ "application-vnd.oasis.opendocument.graphics" ∷ "application-x-bzip"
    ∷ "application-x-compressed-tar" ∷ "application-x-deb" ∷ "application-x-gzip"
    ∷ "application-x-iso" ∷ "application-x-jar" ∷ "application-x-javascript"
    ∷ "application-x-mobipocket-ebook" ∷ "application-x-ms-dos-executable"
    ∷ "application-x-sharedlib" ∷ "application-x-shockwave-flash" ∷ "application-x-sqlite2"
    ∷ "application-x-tar" ∷ "application-xml" ∷ "application-zip" ∷ "audio-x-flac"
    ∷ "audio-x-generic" ∷ "font-x-generic" ∷ "image-x-bmp" ∷ "image-x-generic" ∷ "image-x-gif"
    ∷ "image-x-ico" ∷ "image-x-jpeg" ∷ "image-x-psd" ∷ "image-x-svg+xml" ∷ "image-x-tiff"
    ∷ "image-x-xcf" ∷ "package-x-generic" ∷ "rpm" ∷ "station" ∷ "text-css" ∷ "text-html"
    ∷ "text-rtf" ∷ "text-x-c++src" ∷ "text-x-chdr" ∷ "text-x-csrc" ∷ "text-x-diff"
    ∷ "text-x-generic" ∷ "text-x-go" ∷ "text-x-java" ∷ "text-x-log" ∷ "text-x-lua"
    ∷ "text-x-markdown" ∷ "text-x-patch" ∷ "text-x-python" ∷ "text-x-ruby" ∷ "text-x-rust"
    ∷ "text-x-script" ∷ "unknown" ∷ "video-x-generic" ∷ "x-office-document" ∷ "x-office-drawing"
    ∷ "x-office-presentation" ∷ "x-office-spreadsheet" ∷ [])

-- `MIMETYPE_ALIASES`
unfoldable pub mimetype_aliases : List (Text × Text)
mimetype_aliases = table_of (
    ("application-msword", "x-office-document")
    ∷ ("application-vnd.sqlite3", "application-x-sqlite2")
    ∷ ("application-vnd.ms-excel", "x-office-spreadsheet")
    ∷ ("application-vnd.ms-powerpoint", "x-office-presentation")
    ∷ ("application-vnd.oasis.opendocument.graphics", "x-office-drawing")
    ∷ ("application-vnd.oasis.opendocument.presentation", "x-office-presentation")
    ∷ ("application-vnd.oasis.opendocument.spreadsheet", "x-office-spreadsheet")
    ∷ ("application-vnd.oasis.opendocument.text", "x-office-document")
    ∷ (
      "application-vnd.openxmlformats-officedocument.presentationml.presentation",
      "x-office-presentation",
    )
    ∷ ("application-vnd.openxmlformats-officedocument.spreadsheetml.sheet", "x-office-spreadsheet")
    ∷ (
      "application-vnd.openxmlformats-officedocument.wordprocessingml.document",
      "x-office-document",
    )
    ∷ ("application-x-7z-compressed", "package-x-generic")
    ∷ ("application-x-cd-image", "application-x-iso")
    ∷ ("application-x-cbr", "application-vnd.comicbook+zip")
    ∷ ("application-x-compressed-tar", "application-x-tar")
    ∷ ("application-x-executable", "application-x-ms-dos-executable")
    ∷ ("application-x-font-ttf", "font-x-generic")
    ∷ ("application-x-lzip", "application-zip")
    ∷ ("application-x-rar", "application-zip")
    ∷ ("application-x-rpm", "rpm")
    ∷ ("application-x-sharedlib", "application-x-sharedlib")
    ∷ ("application-x-xz", "application-zip")
    ∷ ("application-x-xz-compressed-tar", "application-x-tar")
    ∷ ("application-x-java-archive", "application-x-jar")
    ∷ ("application-x-raw-disk-image", "application-x-iso")
    ∷ ("audio-flac", "audio-x-flac")
    ∷ ("audio-mpeg", "audio-x-generic")
    ∷ ("audio-x-ogg", "application-ogg")
    ∷ ("audio-x-wav", "audio-x-generic")
    ∷ ("font-otf", "font-x-generic")
    ∷ ("font-ttf", "font-x-generic")
    ∷ ("image-x-adobe-dng", "image-x-psd")
    ∷ ("image-x-adobe-illustrator", "image-x-generic")
    ∷ ("image-bmp", "image-x-bmp")
    ∷ ("image-gif", "image-x-gif")
    ∷ ("image-ico", "image-x-ico")
    ∷ ("image-jpeg", "image-x-jpeg")
    ∷ ("image-png", "image-x-generic")
    ∷ ("image-svg+xml", "image-x-svg+xml")
    ∷ ("image-tiff", "image-x-tiff")
    ∷ ("text-csv", "x-office-spreadsheet")
    ∷ ("text-javascript", "application-x-javascript")
    ∷ ("text-markdown", "text-x-markdown")
    ∷ ("text-plain", "text-x-generic")
    ∷ ("text-rtf", "text-rtf")
    ∷ ("text-xml", "application-xml")
    ∷ ("video-mp4", "video-x-generic")
    ∷ ("video-mpeg", "video-x-generic")
    ∷ ("video-webm", "video-x-generic")
    ∷ ("video-x-flv", "video-x-generic")
    ∷ ("video-x-matroska", "video-x-generic")
    ∷ ("video-x-msvideo", "video-x-generic")
    ∷ ("video-x-wmv", "video-x-generic")
    ∷ [])

-- `MIMETYPE_MAP`
unfoldable pub mimetype_map : List (Text × Text)
mimetype_map = table_of (
    ("7z", "application-x-7z-compressed")
    ∷ ("aac", "audio-x-generic")
    ∷ ("ai", "image-x-adobe-illustrator")
    ∷ ("apk", "package-x-generic")
    ∷ ("avi", "video-x-msvideo")
    ∷ ("avif", "image-x-generic")
    ∷ ("bash", "text-x-script")
    ∷ ("bat", "text-x-script")
    ∷ ("bmp", "image-bmp")
    ∷ ("bz2", "application-x-bzip")
    ∷ ("bz", "application-x-bzip")
    ∷ ("c", "text-x-csrc")
    ∷ ("c++", "text-x-c++src")
    ∷ ("cbr", "application-x-cbr")
    ∷ ("cbz", "application-x-cbr")
    ∷ ("cc", "text-x-c++src")
    ∷ ("cfg", "text-x-generic")
    ∷ ("conf", "text-x-generic")
    ∷ ("cpp", "text-x-c++src")
    ∷ ("css", "text-css")
    ∷ ("csv", "text-csv")
    ∷ ("dat", "text-x-generic")
    ∷ ("db", "application-vnd.sqlite3")
    ∷ ("deb", "application-x-deb")
    ∷ ("diff", "text-x-diff")
    ∷ ("dll", "application-x-sharedlib")
    ∷ ("dmg", "application-x-iso")
    ∷ ("doc", "application-msword")
    ∷ ("docx", "application-vnd.openxmlformats-officedocument.wordprocessingml.document")
    ∷ ("dylib", "application-x-sharedlib")
    ∷ ("env", "text-plain")
    ∷ ("epub", "application-epub+zip")
    ∷ ("exe", "application-x-executable")
    ∷ ("flac", "audio-flac")
    ∷ ("flv", "video-x-flv")
    ∷ ("gif", "image-gif")
    ∷ ("go", "text-x-go")
    ∷ ("gz", "application-x-gzip")
    ∷ ("h", "text-x-chdr")
    ∷ ("hpp", "text-x-c++hdr")
    ∷ ("htm", "text-html")
    ∷ ("html", "text-html")
    ∷ ("ico", "image-x-ico")
    ∷ ("img", "application-x-iso")
    ∷ ("ini", "text-x-generic")
    ∷ ("iso", "application-x-iso")
    ∷ ("java", "text-x-java")
    ∷ ("jar", "application-x-java-archive")
    ∷ ("jpeg", "image-jpeg")
    ∷ ("jpg", "image-jpeg")
    ∷ ("js", "text-javascript")
    ∷ ("json", "application-json")
    ∷ ("jsx", "text-javascript")
    ∷ ("log", "text-x-log")
    ∷ ("lua", "text-x-lua")
    ∷ ("lz", "application-x-lzip")
    ∷ ("m4a", "audio-x-generic")
    ∷ ("m4v", "video-x-generic")
    ∷ ("md", "text-markdown")
    ∷ ("mdx", "text-markdown")
    ∷ ("mkv", "video-x-matroska")
    ∷ ("mobi", "application-x-mobipocket-ebook")
    ∷ ("mov", "video-x-generic")
    ∷ ("mp3", "audio-mpeg")
    ∷ ("mp4", "video-mp4")
    ∷ ("mpeg", "video-mpeg")
    ∷ ("mpg", "video-mpeg")
    ∷ ("odp", "application-vnd.oasis.opendocument.presentation")
    ∷ ("ods", "application-vnd.oasis.opendocument.spreadsheet")
    ∷ ("odt", "application-vnd.oasis.opendocument.text")
    ∷ ("ogg", "audio-x-ogg")
    ∷ ("opus", "audio-x-generic")
    ∷ ("otf", "font-otf")
    ∷ ("patch", "text-x-patch")
    ∷ ("pdf", "application-pdf")
    ∷ ("php", "text-x-php")
    ∷ ("png", "image-png")
    ∷ ("ppt", "application-vnd.ms-powerpoint")
    ∷ ("pptx", "application-vnd.openxmlformats-officedocument.presentationml.presentation")
    ∷ ("psd", "image-x-adobe-dng")
    ∷ ("py", "text-x-python")
    ∷ ("rar", "application-x-rar")
    ∷ ("rb", "text-x-ruby")
    ∷ ("rpm", "application-x-rpm")
    ∷ ("rs", "text-x-rust")
    ∷ ("rtf", "text-rtf")
    ∷ ("sh", "text-x-script")
    ∷ ("so", "application-x-sharedlib")
    ∷ ("sql", "text-x-sql")
    ∷ ("sqlite", "application-vnd.sqlite3")
    ∷ ("svg", "image-svg+xml")
    ∷ ("swf", "application-x-shockwave-flash")
    ∷ ("tar", "application-x-tar")
    ∷ ("taz", "application-x-compressed-tar")
    ∷ ("tiff", "image-tiff")
    ∷ ("tif", "image-tiff")
    ∷ ("toml", "text-x-generic")
    ∷ ("ts", "text-x-generic")
    ∷ ("tsx", "text-x-generic")
    ∷ ("ttf", "font-ttf")
    ∷ ("txt", "text-plain")
    ∷ ("txz", "application-x-xz-compressed-tar")
    ∷ ("vue", "text-x-generic")
    ∷ ("wav", "audio-x-wav")
    ∷ ("webm", "video-webm")
    ∷ ("webp", "image-x-generic")
    ∷ ("wma", "audio-x-generic")
    ∷ ("wmv", "video-x-wmv")
    ∷ ("xcf", "image-x-xcf")
    ∷ ("xls", "application-vnd.ms-excel")
    ∷ ("xlsx", "application-vnd.openxmlformats-officedocument.spreadsheetml.sheet")
    ∷ ("xml", "text-xml")
    ∷ ("xz", "application-x-xz")
    ∷ ("yaml", "text-x-generic")
    ∷ ("yml", "text-x-generic")
    ∷ ("zip", "application-zip")
    ∷ [])
