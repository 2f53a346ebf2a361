-- ===== src/Draft.antt =====
-- app/web/ui/src/lib/ruleEditor.ts, the drafts: what the editor shows of a stored rule. The
-- module's counter `sequence` is passed from call to call.
pub mod Ids
pub mod Duplicate
use jumpway.Prelude.{
  ℕ, suc, Bool, true, false, not, ◌&&◌, ◌||◌, List, [], ◌∷◌, ◌++◌, map, Option, none, some, Text,
  codes, is_empty, decimal, ltb, find?, if◌then◌else◌, ◌==◌, text_eq, get_or, list, is_some,
}
use jumpway.Wire.{WayNode, WayHop, Protocol, Listen, Forward, Rule, filled, text, is_disabled}
use jumpway.Way.{hop, normalize_way, serialize_way, nonempty}
use jumpway.Endpoint.{or_text, loopback}

pub data Mode : Type 0 where
  proxy forward : Mode

pub data EndpointKind : Type 0 where
  address virtual : EndpointKind

pub data ProtocolType : Type 0 where
  http socks5 socks4 ssh ss : ProtocolType

pub data CredentialField : Type 0 where
  username password : CredentialField

-- The columns `type` and `fields` of `PROTOCOLS`, and its rows in display order.
abbrev pub type_text : ProtocolType → Text
type_text http = codes "http"
type_text socks5 = codes "socks5"
type_text socks4 = codes "socks4"
type_text ssh = codes "ssh"
type_text ss = codes "ss"

-- `protocolFields(type).includes(field)`
abbrev pub shows : ProtocolType → CredentialField → Bool
shows socks4 password = false
shows ss username = false
shows _ _ = true

abbrev pub protocol_types : List ProtocolType
protocol_types = http ∷ socks5 ∷ socks4 ∷ ssh ∷ ss ∷ []

abbrev pub is_ss : ProtocolType → Bool
is_ss ss = true
is_ss _ = false

-- `LEGACY_TYPES.includes(type)`
abbrev pub is_legacy : ProtocolType → Bool
is_legacy ss = false
is_legacy _ = true

-- The value of the field `encrypto` in the layout of Shadowsocks (data/proxy_layouts.json).
abbrev pub default_cipher : Text
default_cipher = codes "aes-256-gcm"

pub record ProtocolDraft : Type 0 where
  pub type : ProtocolType
  pub enabled : Bool
  pub custom : Bool
  pub username : Text
  pub password : Text
  pub cipher : Text

pub record UrlDraft : Type 0 where
  pub id : ℕ
  pub value : Text

pub record HopDraft : Type 0 where
  pub id : ℕ
  pub urls : List UrlDraft

pub record ListenDraft : Type 0 where
  pub kind : EndpointKind
  pub host : Text
  pub port : Text
  pub virtual : Text
  pub username : Text
  pub password : Text
  pub protocols : List ProtocolDraft
  pub way : List HopDraft

pub record TargetDraft : Type 0 where
  pub kind : EndpointKind
  pub host : Text
  pub port : Text
  pub virtual : Text

pub record RuleDraft : Type 0 where
  pub name : Text
  pub enabled : Bool
  pub listen : ListenDraft
  pub mode : Mode
  pub target : TargetDraft
  pub forward_way : List HopDraft

-- Each takes the counter and returns it as the call leaves it.
unfoldable pub new_url : ℕ → Text → UrlDraft × ℕ
new_url seq value = (record { id = suc seq; value = value }, suc seq)

new_urls : ℕ → List Text → List UrlDraft × ℕ
unfolding new_url
new_urls seq [] = ([], seq)
new_urls seq (value ∷ values) =
    let (url, seq') = new_url seq value in
    let (urls, seq'') = new_urls seq' values in (url ∷ urls, seq'')

unfoldable pub new_hop : ℕ → List Text → HopDraft × ℕ
unfolding new_urls
new_hop seq values =
    let (urls, seq') = new_urls (suc seq) values in (record { id = suc seq; urls = urls }, seq')

new_hops : ℕ → List WayHop → List HopDraft × ℕ
unfolding new_hop
new_hops seq [] = ([], seq)
new_hops seq (h ∷ hops) =
    let (hd, seq') = new_hop seq h.lb in let (tl, seq'') = new_hops seq' hops in (hd ∷ tl, seq'')

hops_from : ℕ → Option (List WayNode) → List HopDraft × ℕ
unfolding new_hops normalize_way
hops_from seq way = new_hops seq (normalize_way way)

abbrev pub kind_of : Option Text → EndpointKind
kind_of v = if filled v then virtual else address

-- The member of a stored entry, empty where there is no entry or no such member.
abbrev entry_text : (Protocol → Option Text) → Option Protocol → Text
entry_text f none = []
entry_text f (some p) = text (f p)

protocol_draft : Listen → ProtocolType → ProtocolDraft
protocol_draft l t =
    let stored = list l.protocols in
    let entry = find? (λ (p : Protocol). p.type == type_text t) stored in
    let username = entry_text (λ p. p.username) entry in
    let password = entry_text (λ p. p.password) entry in
    record {
      type = t;
      enabled =
          if is_empty stored then is_legacy t || (is_ss t && filled l.cipher) else is_some entry;
      custom = nonempty username || nonempty password;
      username = username;
      password = password;
      cipher =
          if is_ss t
          then or_text (entry_text (λ p. p.cipher) entry) (or_text (text l.cipher) default_cipher)
          else [];
    }

unfoldable pub protocols_from : Listen → List ProtocolDraft
unfolding protocol_draft
protocols_from l = map (protocol_draft l) protocol_types

unfoldable pub draft_from : ℕ → Rule → RuleDraft × ℕ
unfolding hops_from protocols_from decimal
draft_from seq r =
    let port = get_or r.forward.port 0 in
    let (listen_way, seq') = hops_from seq r.listen.way in
    let (forward_way, seq'') = hops_from seq' r.forward.way in
    (
      record {
        name = r.name;
        enabled = not (is_disabled r);
        listen = record {
          kind = kind_of r.listen.virtual;
          host = r.listen.host;
          port = decimal r.listen.port;
          virtual = text r.listen.virtual;
          username = text r.listen.username;
          password = text r.listen.password;
          protocols = protocols_from r.listen;
          way = listen_way;
        };
        mode = if ltb 0 port || filled r.forward.virtual then forward else proxy;
        target = record {
          kind = kind_of r.forward.virtual;
          host = text r.forward.host;
          port = if ltb 0 port then decimal port else [];
          virtual = text r.forward.virtual;
        };
        forward_way = forward_way;
      },
      seq'',
    )

unfoldable pub empty_draft : ℕ → RuleDraft × ℕ
unfolding draft_from
empty_draft seq = draft_from seq (record {
  name = [];
  disabled = none;
  listen = record {
    host = loopback;
    port = 0;
    virtual = none;
    way = none;
    username = none;
    password = none;
    cipher = none;
    protocols = none;
  };
  forward = record { host = none; port = none; virtual = none; way = none };
})

unfoldable pub way_of : List HopDraft → List WayHop
unfolding serialize_way
way_of hops =
    serialize_way (map (λ (h : HopDraft). hop (map (λ (u : UrlDraft). u.value) h.urls)) hops)
