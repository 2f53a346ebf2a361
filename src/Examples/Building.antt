-- ===== src/Examples/Building.antt =====
-- The URL builder, at concrete fields.
use jumpway.Prelude.{true, [], none, some, Text, codes, text_beq, trim, ◌≡◌, ◌↔◌, refl}
use jumpway.UrlBuilder.{
  BuilderValues, Parser, host, command, given, build_url, parse_url, socks5_layout, command_layout,
  netcat_layout, command_values,
}
use jumpway.UrlBuilder.Ports.{IsComplete, build_url-valid_iff}
use jumpway.UrlBuilder.Commands.{parse_url-build_url}

-- A host that has to be bracketed, and no port.
abbrev values : BuilderValues
values host = some (codes " ::1 ")
values command = some (codes " nc %h %p ")
values _ = none

-- A browser that reads no URL.
abbrev pub no_urls : Parser
no_urls = record {
  Url = Text;
  parse = λ s. none;
  protocol = λ u. [];
  username = λ u. [];
  password = λ u. [];
  hostname = λ u. [];
  port = λ u. [];
  identity_file = λ u. none;
}

socks5_test : (build_url (λ s. s) socks5_layout values).url ≡ codes "socks5://[::1]:1080"
unfolding build_url trim text_beq
socks5_test = refl

build_url-valid_iff_example :
    (((build_url (λ s. s) socks5_layout values).valid ≡ true) ↔ IsComplete socks5_layout values)
    × (((build_url (λ s. s) socks5_layout values).hint ≡ none)
        ↔ ((build_url (λ s. s) socks5_layout values).valid ≡ true))
build_url-valid_iff_example = build_url-valid_iff (λ s. s) socks5_layout values

parse_url-build_url_example :
    (parse_url (λ s. s) no_urls some (build_url (λ s. s) command_layout values).url
      ≡ some (command_layout, command_values (trim (given values command))))
    × (parse_url (λ s. s) no_urls some (build_url (λ s. s) netcat_layout values).url
        ≡ some (netcat_layout, command_values (trim (given values command))))
parse_url-build_url_example = parse_url-build_url (λ s. s) (λ s. s) no_urls some values refl refl
