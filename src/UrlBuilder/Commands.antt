-- ===== src/UrlBuilder/Commands.antt =====
-- The URLs of commands, and what is read from them.
use jumpway.Prelude.{Option, some, Text, text_eq, text_beq, codes, trim, ◌≡◌, refl}
use jumpway.UrlBuilder.{
  command_layout, netcat_layout, BuilderValues, command, given, Parser, command_values, build_url,
  parse_url,
}

-- The URL that is built from a line for a command layout is read back as that layout with the line
-- trimmed, where `toLowerCase` leaves the two schemes as they are.
pub parse_url-build_url :
    (enc lower : Text → Text) (parser : Parser) (dec : Text → Option Text) (values : BuilderValues)
    → lower (codes "cmd") ≡ codes "cmd"
    → lower (codes "nc") ≡ codes "nc"
    → (parse_url lower parser dec (build_url enc command_layout values).url
        ≡ some (command_layout, command_values (trim (given values command))))
      × (parse_url lower parser dec (build_url enc netcat_layout values).url
          ≡ some (netcat_layout, command_values (trim (given values command))))
unfolding parse_url build_url text_beq
parse_url-build_url enc lower parser dec values cmd nc =
    (rw (parse_url, cmd) refl, rw (parse_url, nc) refl)
