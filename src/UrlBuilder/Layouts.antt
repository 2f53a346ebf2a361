-- ===== src/UrlBuilder/Layouts.antt =====
-- app/web/ui/src/lib/urlBuilder.ts: the types of the layouts, and app/web/ui/src/lib/data/proxy_layouts.json,
-- the layouts themselves.
use jumpway.Prelude.{Bool, true, false, List, [], ◌∷◌, Option, none, some, Text, codes}

pub data LayoutInputKind : Type 0 where
  span text password select file : LayoutInputKind

pub data BuilderField : Type 0 where
  username password host port identity encrypto command : BuilderField

pub record LayoutInput : Type 0 where
  pub name : Option BuilderField
  pub kind : LayoutInputKind
  pub label : Option Text
  pub value : Option Text
  pub option : Bool
  pub items : List Text
  pub placeholder : Option Text

pub record ProxyLayout : Type 0 where
  pub name : Text
  pub inputs : List LayoutInput

-- An input without any of the members that may be left out.
abbrev input : Option BuilderField → LayoutInputKind → LayoutInput
input name kind = record {
  name = name;
  kind = kind;
  label = none;
  value = none;
  option = false;
  items = [];
  placeholder = none;
}

abbrev fixed : Text → LayoutInput
fixed value = record (input none span) { value = some value }

abbrev pub https_layout : ProxyLayout
https_layout = record {
  name = codes "https";
  inputs =
      fixed (codes "https://")
      ∷ (record (input (some BuilderField.username) LayoutInputKind.text) { option = true })
      ∷ fixed (codes ":")
      ∷ (record (input (some BuilderField.password) LayoutInputKind.password) { option = true })
      ∷ fixed (codes "@")
      ∷ input (some BuilderField.host) LayoutInputKind.text
      ∷ fixed (codes ":")
      ∷ (record (input (some BuilderField.port) LayoutInputKind.text) {
        value = some (codes "443");
      })
      ∷ [];
}

abbrev pub http_layout : ProxyLayout
http_layout = record {
  name = codes "http";
  inputs =
      fixed (codes "http://")
      ∷ (record (input (some BuilderField.username) LayoutInputKind.text) { option = true })
      ∷ fixed (codes ":")
      ∷ (record (input (some BuilderField.password) LayoutInputKind.password) { option = true })
      ∷ fixed (codes "@")
      ∷ input (some BuilderField.host) LayoutInputKind.text
      ∷ fixed (codes ":")
      ∷ (record (input (some BuilderField.port) LayoutInputKind.text) { value = some (codes "80") })
      ∷ [];
}

abbrev pub socks4_layout : ProxyLayout
socks4_layout = record {
  name = codes "socks4";
  inputs =
      fixed (codes "socks4://")
      ∷ (record (input (some BuilderField.username) LayoutInputKind.text) { option = true })
      ∷ fixed (codes "@")
      ∷ input (some BuilderField.host) LayoutInputKind.text
      ∷ fixed (codes ":")
      ∷ (record (input (some BuilderField.port) LayoutInputKind.text) {
        value = some (codes "1080");
      })
      ∷ [];
}

abbrev pub socks4a_layout : ProxyLayout
socks4a_layout = record {
  name = codes "socks4a";
  inputs =
      fixed (codes "socks4a://")
      ∷ (record (input (some BuilderField.username) LayoutInputKind.text) { option = true })
      ∷ fixed (codes "@")
      ∷ input (some BuilderField.host) LayoutInputKind.text
      ∷ fixed (codes ":")
      ∷ (record (input (some BuilderField.port) LayoutInputKind.text) {
        value = some (codes "1080");
      })
      ∷ [];
}

abbrev pub socks5_layout : ProxyLayout
socks5_layout = record {
  name = codes "socks5";
  inputs =
      fixed (codes "socks5://")
      ∷ (record (input (some BuilderField.username) LayoutInputKind.text) { option = true })
      ∷ fixed (codes ":")
      ∷ (record (input (some BuilderField.password) LayoutInputKind.password) { option = true })
      ∷ fixed (codes "@")
      ∷ input (some BuilderField.host) LayoutInputKind.text
      ∷ fixed (codes ":")
      ∷ (record (input (some BuilderField.port) LayoutInputKind.text) {
        value = some (codes "1080");
      })
      ∷ [];
}

abbrev pub socks5h_layout : ProxyLayout
socks5h_layout = record {
  name = codes "socks5h";
  inputs =
      fixed (codes "socks5h://")
      ∷ (record (input (some BuilderField.username) LayoutInputKind.text) { option = true })
      ∷ fixed (codes ":")
      ∷ (record (input (some BuilderField.password) LayoutInputKind.password) { option = true })
      ∷ fixed (codes "@")
      ∷ input (some BuilderField.host) LayoutInputKind.text
      ∷ fixed (codes ":")
      ∷ (record (input (some BuilderField.port) LayoutInputKind.text) {
        value = some (codes "1080");
      })
      ∷ [];
}

abbrev pub ssh_layout : ProxyLayout
ssh_layout = record {
  name = codes "ssh";
  inputs =
      fixed (codes "ssh://")
      ∷ (record (input (some BuilderField.username) LayoutInputKind.text) { option = true })
      ∷ fixed (codes ":")
      ∷ (record (input (some BuilderField.password) LayoutInputKind.password) { option = true })
      ∷ fixed (codes "@")
      ∷ input (some BuilderField.host) LayoutInputKind.text
      ∷ fixed (codes ":")
      ∷ (record (input (some BuilderField.port) LayoutInputKind.text) { value = some (codes "22") })
      ∷ fixed (codes "?identity_file=")
      ∷ (record (input (some BuilderField.identity) LayoutInputKind.file) { option = true })
      ∷ [];
}

abbrev pub shadowsocks_layout : ProxyLayout
shadowsocks_layout = record {
  name = codes "shadowsocks";
  inputs =
      fixed (codes "ss://")
      ∷ (record (input (some BuilderField.encrypto) LayoutInputKind.select) {
        value = some (codes "aes-256-gcm");
        items =
            codes "aes-128-gcm"
            ∷ codes "aes-256-gcm"
            ∷ codes "chacha20-ietf-poly1305"
            ∷ codes "aes-128-cfb"
            ∷ codes "aes-192-cfb"
            ∷ codes "aes-256-cfb"
            ∷ codes "aes-128-ctr"
            ∷ codes "aes-192-ctr"
            ∷ codes "aes-256-ctr"
            ∷ codes "des-cfb"
            ∷ codes "bf-cfb"
            ∷ codes "cast5-cfb"
            ∷ codes "rc4-md5"
            ∷ codes "chacha20"
            ∷ codes "chacha20-ietf"
            ∷ codes "salsa20"
            ∷ [];
      })
      ∷ fixed (codes ":")
      ∷ input (some BuilderField.password) LayoutInputKind.password
      ∷ fixed (codes "@")
      ∷ input (some BuilderField.host) LayoutInputKind.text
      ∷ fixed (codes ":")
      ∷ (record (input (some BuilderField.port) LayoutInputKind.text) {
        value = some (codes "8379");
      })
      ∷ [];
}

abbrev pub command_layout : ProxyLayout
command_layout = record {
  name = codes "command";
  inputs =
      fixed (codes "cmd:")
      ∷ (record (input (some BuilderField.command) LayoutInputKind.text) {
        placeholder = some (codes "nc %h %p");
      })
      ∷ [];
}

abbrev pub netcat_layout : ProxyLayout
netcat_layout = record {
  name = codes "netcat";
  inputs =
      fixed (codes "nc:")
      ∷ (record (input (some BuilderField.command) LayoutInputKind.text) {
        label = some (codes "field.commandPrefix");
        placeholder = some (codes "ssh jump");
        option = true;
      })
      ∷ [];
}

abbrev pub layouts : List ProxyLayout
layouts =
    https_layout ∷ http_layout ∷ socks4_layout ∷ socks4a_layout ∷ socks5_layout ∷ socks5h_layout
    ∷ ssh_layout ∷ shadowsocks_layout ∷ command_layout ∷ netcat_layout ∷ []
