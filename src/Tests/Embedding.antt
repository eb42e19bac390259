-- ===== src/Tests/Embedding.antt =====
-- Embedding a text in the generated module.
use ebnf.Base.{◌≡◌, refl, some, codes}
use ebnf.Embed.{ts_string}
use ebnf.Embed.RoundTrip.{line_feeds, template_value, template_value-ts_string}

embed_run : ts_string (codes "a\\`${b} $c") ≡ codes "`a\\\\\\`\\${b} $c`"
unfolding ts_string
embed_run = refl

-- A carriage return is lost.
lossy_run : line_feeds (codes "a\r\nb\rc") ≡ codes "a\nb\nc"
unfolding line_feeds
lossy_run = refl

template_value-ts_string_example :
    template_value (ts_string (codes "`${x}` \\")) ≡ some (line_feeds (codes "`${x}` \\"))
template_value-ts_string_example = template_value-ts_string (codes "`${x}` \\")
